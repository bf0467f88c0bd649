-- ===== src/Rtc/Bus.antt =====
-- The memory-mapped registers of hw/rtc/stmp3770_rtc.c.
use emu_gii.Prelude.{
  ℕ, ◌+◌, ◌-◌, ◌*◌, ◌/◌, ◌^◌, bit_and, bit_or, true, false, not, ◌&&◌, none, leb, ltb, ◌==◌,
  if◌then◌else◌, get_or, set, replicate,
}
use emu_gii.Bits.{bit}
use emu_gii.Reg.{u32, not32, has, alias_exact, base_of, read_subword}
use emu_gii.Rtc.State.{
  Rtc, num_persistent, ctrl_sftrst, ctrl_clkgate, ctrl_force_update, ctrl_writable_mask, update_irq,
  check_alarm, apply_write,
}
use emu_gii.Rtc.Copy.{queue_shadow_refresh, queue_shadow_write}

pub data Register : Type 0 where
  ctrl stat milliseconds seconds alarm watchdog debug version bad : Register
  persistent : ℕ → Register

unfoldable pub decode : ℕ → Register
decode base =
    if base == 0x000
    then Register.ctrl
    else if base == 0x010
    then Register.stat
    else if base == 0x020
    then Register.milliseconds
    else if base == 0x030
    then Register.seconds
    else if base == 0x040
    then Register.alarm
    else if base == 0x050
    then Register.watchdog
    else if leb 0x060 base && ltb base (0x060 + num_persistent * 0x10)
    then Register.persistent ((base - 0x060) / 0x10)
    else if base == 0x0C0
    then Register.debug
    else if base == 0x0D0
    then Register.version
    else Register.bad

unfoldable pub register_value : Rtc → Register → ℕ
register_value s Register.ctrl = s.ctrl
register_value s Register.stat = bit_or s.stat 0xe000_0000
register_value s Register.milliseconds = s.milliseconds
register_value s Register.seconds = s.seconds
register_value s Register.alarm = s.alarm
register_value s Register.watchdog = s.watchdog
register_value s Register.debug = s.debug
register_value s Register.version = s.version
register_value s Register.bad = 0
register_value s (Register.persistent n) = get_or s.persistent n 0

unfoldable pub read : Rtc → ℕ → ℕ → ℕ
unfolding decode register_value read_subword
read s offset size = read_subword (register_value s (decode (base_of offset))) offset size

-- `stmp3770_rtc_rearm`
abbrev pub rearm : Rtc → Rtc
rearm s = record s { tick_runs = true }

unfoldable pub write_ctrl : ℕ → Rtc → ℕ → ℕ → ℕ → Rtc
unfolding update_irq queue_shadow_refresh
write_ctrl now s value offset size =
    let written =
      apply_write s.ctrl ctrl_writable_mask (u32 value) (alias_exact offset) offset size in
    let gated = if has written ctrl_sftrst then bit_or written ctrl_clkgate else written in
    let t = record s { ctrl = gated } in
    let refreshed = queue_shadow_refresh now t in
    let forced = not (has s.ctrl ctrl_force_update) && has gated ctrl_force_update in
    let u =
      if forced then record refreshed { ctrl = bit_and gated (not32 ctrl_force_update) } else t in
    update_irq (rearm u)

unfoldable pub write_seconds : ℕ → Rtc → ℕ → ℕ → ℕ → Rtc
unfolding check_alarm queue_shadow_write
write_seconds now s value offset size =
    let next = apply_write s.seconds 0xffff_ffff (u32 value) (alias_exact offset) offset size in
    if bit (bit_or (get_or s.persistent 0 0) (get_or s.analog_persistent 0 0)) 3
    then s
    else check_alarm (queue_shadow_write now (record s { seconds = next }) 7)

abbrev pub persistent_mask : ℕ → ℕ
persistent_mask n = if n == 1 then 0x0000_000f else 0xffff_ffff

unfoldable pub write_persistent : ℕ → Rtc → ℕ → ℕ → ℕ → ℕ → Rtc
unfolding queue_shadow_write
write_persistent now s n value offset size =
    let old = get_or s.persistent n 0 in
    let next = apply_write old (persistent_mask n) (u32 value) (alias_exact offset) offset size in
    let kept = if n == 0 && bit old 3 then bit_or next (2 ^ 3) else next in
    queue_shadow_write now (record s { persistent = set s.persistent n kept }) n

unfoldable pub write_register : ℕ → Rtc → Register → ℕ → ℕ → ℕ → Rtc
unfolding write_ctrl write_seconds write_persistent check_alarm queue_shadow_write
write_register now s Register.ctrl value offset size = write_ctrl now s value offset size
write_register now s Register.milliseconds value offset size = record s {
  milliseconds =
      apply_write s.milliseconds 0xffff_ffff (u32 value) (alias_exact offset) offset size;
}
write_register now s Register.seconds value offset size = write_seconds now s value offset size
write_register now s Register.alarm value offset size =
    let next = apply_write s.alarm 0xffff_ffff (u32 value) (alias_exact offset) offset size in
    check_alarm (queue_shadow_write now (record s { alarm = next }) 6)
write_register now s Register.watchdog value offset size = record s {
  watchdog = apply_write s.watchdog 0xffff_ffff (u32 value) (alias_exact offset) offset size;
}
write_register now s Register.debug value offset size = record s {
  debug = apply_write s.debug 2 (u32 value) (alias_exact offset) offset size;
}
write_register now s (Register.persistent n) value offset size =
    write_persistent now s n value offset size
write_register now s _ value offset size = s

unfoldable pub write : ℕ → Rtc → ℕ → ℕ → ℕ → Rtc
unfolding decode write_register
write now s offset value size = write_register now s (decode (base_of offset)) value offset size

-- The first reset also clears the always-on registers.
unfoldable pub init_analog : Rtc → Rtc
init_analog s = if s.analog_initialized then s else record s {
  analog_seconds = 0;
  analog_alarm = 0;
  analog_persistent = set (replicate num_persistent 0) 0 0x100;
  analog_msec_phase = 0;
  analog_initialized = true;
}

-- The visible registers, before the always-on ones are looked at.
unfoldable pub clear_registers : Rtc → Rtc
clear_registers s = record s {
  tick_runs = false;
  copy_timer = none;
  ctrl = 0xc000_0020;
  stat = 0x00ff_0000;
  milliseconds = 0;
  msec_resolution_phase = 0;
  seconds = 0;
  alarm = 0;
  watchdog = 0xffff_ffff;
  persistent = set (replicate num_persistent 0) 0 0x100;
}

-- From `copy_to_shadow = 0` on.
unfoldable pub finish_reset : ℕ → Rtc → Rtc
unfolding queue_shadow_refresh update_irq
finish_reset now s =
    let t = record s { copy_to_shadow = 0; copy_to_analog = 0; debug = 0; version = 0x0200_0000 } in
    let u = queue_shadow_refresh now t in
    update_irq (rearm (record u { ctrl = bit_and u.ctrl (not32 ctrl_force_update) }))

unfoldable pub reset : ℕ → Rtc → Rtc
unfolding clear_registers init_analog finish_reset
reset now s = finish_reset now (init_analog (clear_registers s))

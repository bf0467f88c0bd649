-- ===== src/Rtc/Copy.antt =====
-- The copies between the shadow registers and the always-on ones (hw/rtc/stmp3770_rtc.c). `now` is
-- `qemu_clock_get_ns(QEMU_CLOCK_VIRTUAL)`.
use emu_gii.Prelude.{
  ℕ, zero, suc, ◌+◌, ◌^◌, bit_and, bit_or, not, ◌&&◌, none, some, ◌==◌, if◌then◌else◌,
}
use emu_gii.Bits.{bit}
use emu_gii.Reg.{not32, ◌<<<◌}
use emu_gii.Rtc.State.{Rtc, shadow_reg, put_shadow_reg, analog_reg, put_analog_reg}

abbrev pub copy_interval_ns : ℕ
copy_interval_ns = 375_000

unfoldable pub rearm_copy_timer : ℕ → Rtc → Rtc
rearm_copy_timer now s = record s {
  copy_timer =
      if not (s.copy_to_shadow == 0 && s.copy_to_analog == 0)
      then some (now + copy_interval_ns)
      else none;
}

unfoldable pub queue_shadow_refresh : ℕ → Rtc → Rtc
unfolding rearm_copy_timer
queue_shadow_refresh now s =
    rearm_copy_timer now (record s { stat = bit_or s.stat 0x00ff_0000; copy_to_shadow = 0xff })

unfoldable pub queue_shadow_write : ℕ → Rtc → ℕ → Rtc
unfolding rearm_copy_timer
queue_shadow_write now s reg =
    let marked = record s { stat = bit_or s.stat ((2 ^ reg) <<< 8) } in
    if bit s.ctrl 6
    then marked
    else rearm_copy_timer now (record marked { copy_to_analog = bit_or s.copy_to_analog (2 ^ reg) })

-- `ctz32`, of a number below 2 ^ `bits`: the first of the bits from `k` on that is set.
unfoldable pub ctz : ℕ → ℕ → ℕ → ℕ
ctz zero k pending = k
ctz (suc bits) k pending = let rest = ctz bits (suc k) pending in if bit pending k then k else rest

-- The marks of register `reg` once it is copied towards the shadow, and towards the always-on copy.
abbrev pub refreshed : ℕ → Rtc → Rtc
refreshed reg t = record t {
  copy_to_shadow = bit_and t.copy_to_shadow (not32 (2 ^ reg));
  copy_to_analog = bit_and t.copy_to_analog (not32 (2 ^ reg));
  stat = bit_and (bit_and t.stat (not32 ((2 ^ reg) <<< 16))) (not32 ((2 ^ reg) <<< 8));
}

abbrev pub stored : ℕ → Rtc → Rtc
stored reg t = record t {
  copy_to_analog = bit_and t.copy_to_analog (not32 (2 ^ reg));
  stat = bit_and t.stat (not32 ((2 ^ reg) <<< 8));
}

unfoldable pub refresh_reg : Rtc → ℕ → Rtc
refresh_reg s reg = refreshed reg (put_shadow_reg s reg (analog_reg s reg))

unfoldable pub store_reg : Rtc → ℕ → Rtc
store_reg s reg = stored reg (put_analog_reg s reg (shadow_reg s reg))

-- `stmp3770_rtc_copy_step`, the callback of `copy_timer`.
unfoldable pub copy_step : ℕ → Rtc → Rtc
unfolding refresh_reg store_reg rearm_copy_timer
copy_step now s =
    let pending = bit_or s.copy_to_shadow s.copy_to_analog in
    let reg = ctz 8 0 pending in
    if pending == 0
    then s
    else rearm_copy_timer now
        (if bit s.copy_to_shadow reg then refresh_reg s reg else store_reg s reg)

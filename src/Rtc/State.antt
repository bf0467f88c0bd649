-- ===== src/Rtc/State.antt =====
-- `STMP3770RTCState` (include/hw/rtc/stmp3770_rtc.h), and what hw/rtc/stmp3770_rtc.c reads off it.
use emu_gii.Prelude.{
  ℕ, ◌^◌, bit_and, bit_or, bit_xor, Bool, not, ◌&&◌, ◌||◌, Option, List, ltb, ◌==◌, if◌then◌else◌,
  get_or, set,
}
use emu_gii.Bits.{bit}
use emu_gii.Reg.{u32, not32, has, Alias, ◌<<<◌, ◌>>>◌, size_mask, byte_shift}

-- A `qemu_irq` is the level last set, `copy_timer` a deadline in nanoseconds; `tick_runs` says that
-- the periodic timer runs, and `reset_requested` that the watchdog asked for a system reset.
pub record Rtc : Type 0 where
  pub alarm_irq : Bool
  pub onemsec_irq : Bool
  pub ctrl : ℕ
  pub stat : ℕ
  pub milliseconds : ℕ
  pub seconds : ℕ
  pub alarm : ℕ
  pub watchdog : ℕ
  pub persistent : List ℕ
  pub debug : ℕ
  pub version : ℕ
  pub analog_seconds : ℕ
  pub analog_alarm : ℕ
  pub analog_persistent : List ℕ
  pub analog_initialized : Bool
  pub analog_msec_phase : ℕ
  pub msec_resolution_phase : ℕ
  pub copy_to_shadow : ℕ
  pub copy_to_analog : ℕ
  pub tick_runs : Bool
  pub copy_timer : Option ℕ
  pub reset_requested : Bool

abbrev pub num_persistent : ℕ
num_persistent = 6

abbrev pub ctrl_sftrst : ℕ
ctrl_sftrst = 2 ^ 31

abbrev pub ctrl_clkgate : ℕ
ctrl_clkgate = 2 ^ 30

abbrev pub ctrl_force_update : ℕ
ctrl_force_update = 2 ^ 5

abbrev pub ctrl_onemsec_irq : ℕ
ctrl_onemsec_irq = 2 ^ 3

abbrev pub ctrl_alarm_irq : ℕ
ctrl_alarm_irq = 2 ^ 2

-- SFTRST, CLKGATE and bits 6:0
abbrev pub ctrl_writable_mask : ℕ
ctrl_writable_mask = 0xc000_007f

-- `stmp3770_rtc_msec_resolution`
unfoldable pub msec_resolution : Rtc → ℕ
msec_resolution s =
    let resolution = bit_and (get_or s.persistent 0 0 >>> 8) 0x1f in
    if resolution == 1
      || (resolution == 2 || (resolution == 4 || (resolution == 8 || resolution == 16)))
    then resolution
    else 1

-- `stmp3770_rtc_enabled`
unfoldable pub is_enabled : Rtc → Bool
is_enabled s = not (has s.ctrl 0xc000_0000)

-- `*stmp3770_rtc_shadow_reg(s, reg)`, read and written: the persistent registers, 6 for the alarm
-- and 7 for the seconds.
unfoldable pub shadow_reg : Rtc → ℕ → ℕ
shadow_reg s reg =
    if ltb reg num_persistent
    then get_or s.persistent reg 0
    else if reg == 6
    then s.alarm
    else s.seconds

unfoldable pub put_shadow_reg : Rtc → ℕ → ℕ → Rtc
put_shadow_reg s reg value =
    if ltb reg num_persistent
    then record s { persistent = set s.persistent reg value }
    else if reg == 6
    then record s { alarm = value }
    else record s { seconds = value }

unfoldable pub analog_reg : Rtc → ℕ → ℕ
analog_reg s reg =
    if ltb reg num_persistent
    then get_or s.analog_persistent reg 0
    else if reg == 6
    then s.analog_alarm
    else s.analog_seconds

unfoldable pub put_analog_reg : Rtc → ℕ → ℕ → Rtc
put_analog_reg s reg value =
    if ltb reg num_persistent
    then record s { analog_persistent = set s.analog_persistent reg value }
    else if reg == 6
    then record s { analog_alarm = value }
    else record s { analog_seconds = value }

-- `stmp3770_rtc_update_irq`
unfoldable pub update_irq : Rtc → Rtc
update_irq s = record s {
  alarm_irq = bit s.ctrl 2 && bit s.ctrl 0;
  onemsec_irq = bit s.ctrl 3 && bit s.ctrl 1;
}

-- `stmp3770_rtc_check_alarm`
unfoldable pub check_alarm : Rtc → Rtc
unfolding update_irq
check_alarm s =
    if bit (get_or s.persistent 0 0) 2 && s.seconds == s.alarm
    then update_irq (record s { ctrl = bit_or s.ctrl ctrl_alarm_irq })
    else s

-- The four cases of `stmp3770_rtc_apply_write`, on the field that the access covers.
unfoldable pub apply_alias : Alias → ℕ → ℕ → ℕ → ℕ
apply_alias Alias.set cur value mask = bit_or cur value
apply_alias Alias.clr cur value mask = bit_and cur (not32 value)
apply_alias Alias.tog cur value mask = bit_xor cur value
apply_alias Alias.plain cur value mask = bit_or (bit_and value mask) (bit_and cur (not32 mask))

-- `stmp3770_rtc_apply_write`: the mask is applied to the value before it is shifted.
unfoldable pub apply_write : ℕ → ℕ → ℕ → Alias → ℕ → ℕ → ℕ
unfolding apply_alias size_mask
apply_write reg mask value sct offset size =
    let shift = byte_shift offset in
    let smask = size_mask size in
    let full_mask = u32 (smask <<< shift) in
    let cur = apply_alias sct (bit_and (reg >>> shift) smask) (bit_and value mask) mask in
    bit_or (bit_and reg (not32 full_mask)) (u32 (bit_and cur smask <<< shift))

-- ===== src/Rtc/Tick.antt =====
-- The millisecond tick of hw/rtc/stmp3770_rtc.c.
use emu_gii.Prelude.{◌+◌, ◌-◌, ◌%◌, ◌^◌, bit_or, not, ◌&&◌, ◌||◌, leb, ◌==◌, if◌then◌else◌}
use emu_gii.Bits.{bit}
use emu_gii.Reg.{u32}
use emu_gii.Rtc.State.{Rtc, is_enabled, msec_resolution, check_alarm, update_irq, ctrl_onemsec_irq}

-- The always-on second counter, and the visible one if the clock is enabled.
unfoldable pub tick_second : Rtc → Rtc
unfolding check_alarm
tick_second s =
    let phase = (s.analog_msec_phase + 1) % 2 ^ 16 in
    let counted = record s { analog_msec_phase = 0; analog_seconds = u32 (s.analog_seconds + 1) } in
    if phase == 1000
    then (if is_enabled s
        then check_alarm (record counted { seconds = counted.analog_seconds })
        else counted)
    else record s { analog_msec_phase = phase }

-- The millisecond counter at its resolution.
unfoldable pub tick_millisecond : Rtc → Rtc
unfolding msec_resolution
tick_millisecond s =
    let phase = (s.msec_resolution_phase + 1) % 2 ^ 8 in
    if leb (msec_resolution s) phase
    then record s { msec_resolution_phase = 0; milliseconds = u32 (s.milliseconds + 1) }
    else record s { msec_resolution_phase = phase }

unfoldable pub tick_irq : Rtc → Rtc
unfolding update_irq
tick_irq s =
    if bit s.ctrl 1 then update_irq (record s { ctrl = bit_or s.ctrl ctrl_onemsec_irq }) else s

unfoldable pub tick_watchdog : Rtc → Rtc
tick_watchdog s =
    let left = s.watchdog - 1 in
    if bit s.ctrl 4 && not (s.watchdog == 0)
    then (if left == 0
        then record s {
          watchdog = 0;
          debug = bit_or s.debug 1;
          reset_requested = s.reset_requested || not (bit (bit_or s.debug 1) 1);
        }
        else record s { watchdog = left })
    else s

-- `stmp3770_rtc_tick`
unfoldable pub tick : Rtc → Rtc
unfolding tick_second tick_millisecond tick_irq tick_watchdog
tick s =
    let t = tick_second s in
    if not (is_enabled t) then t else tick_watchdog (tick_irq (tick_millisecond t))

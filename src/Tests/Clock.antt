-- ===== src/Tests/Clock.antt =====
-- The real-time clock at a concrete state: locked, at the last millisecond of a second.
use emu_gii.Prelude.{
  ◌≡◌, refl, true, false, none, List, [], ◌∷◌, ◌*◌, for_below, set, replicate, arith,
}
use emu_gii.Bits.{bit}
use emu_gii.Rtc.State.{Rtc}
use emu_gii.Rtc.Bus.{write}
use emu_gii.Rtc.Tick.{tick}
use emu_gii.Rtc.Lock.{IsLocked}
use emu_gii.Rtc.Forever.{Event, run, locked_forever}
use emu_gii.Rtc.Clock.{Later, tick-Later}
use emu_gii.Rtc.Copy.{copy_step}
use emu_gii.Rtc.Marks.{marks, copies_settle}

abbrev locked_clock : Rtc
locked_clock = record {
  alarm_irq = false;
  onemsec_irq = false;
  ctrl = 0;
  stat = 0;
  milliseconds = 0;
  seconds = 59;
  alarm = 60;
  watchdog = 0xffff_ffff;
  persistent = set (replicate 6 0) 0 0x108;
  debug = 0;
  version = 0x0200_0000;
  analog_seconds = 59;
  analog_alarm = 60;
  analog_persistent = set (replicate 6 0) 0 0x108;
  analog_initialized = true;
  analog_msec_phase = 999;
  msec_resolution_phase = 0;
  copy_to_shadow = 0;
  copy_to_analog = 0;
  tick_runs = true;
  copy_timer = none;
  reset_requested = false;
}

locked_clock-IsLocked : IsLocked locked_clock
unfolding bit
locked_clock-IsLocked = record {
  size = refl;
  analog_size = refl;
  initialized = refl;
  analog_locks = refl;
  shadow_locks = refl;
}

-- A reset, a write of PERSISTENT0 that tries to unlock, its copy, and a write of SECONDS.
abbrev attempt : List Event
attempt = Event.device_reset 0 ∷ Event.bus_write 10 0x060 0x100 4 ∷ Event.copy_expires 375_000 ∷ []

locked_forever_example :
    write 400_000 (run locked_clock attempt) 0x030 7 4 ≡ run locked_clock attempt
locked_forever_example =
    locked_forever locked_clock attempt 400_000 0x030 7 4 locked_clock-IsLocked refl

tick-Later_example : Later locked_clock (tick locked_clock)
tick-Later_example =
    tick-Later locked_clock (record { seconds_fit = omega arith; phase_fits = omega arith })

-- Every register is to be refreshed, and the seconds to be stored.
abbrev marked_clock : Rtc
marked_clock = record locked_clock { copy_to_shadow = 0xff; copy_to_analog = 0x80 }

copies_settle_example : marks (for_below 8 (λ i t. copy_step (375_000 * i) t) marked_clock) ≡ 0
copies_settle_example = copies_settle (λ i. 375_000 * i) marked_clock (omega arith) (omega arith)

-- ===== src/Rtc/Clock.antt =====
-- The always-on clock counts milliseconds (hw/rtc/stmp3770_rtc.c).
use emu_gii.Prelude.{
  ℕ, ◌+◌, ◌-◌, ◌*◌, ◌%◌, ◌^◌, ◌<◌, ◌≡◌, refl, ◌∙◌, true, false, not, ◌&&◌, leb, ◌==◌, get_or, arith,
  if_split,
}
use emu_gii.Bits.{bit}
use emu_gii.Reg.{u32}
use emu_gii.Rtc.State.{Rtc, is_enabled, msec_resolution, check_alarm, update_irq}
use emu_gii.Rtc.Tick.{tick_second, tick_millisecond, tick_irq, tick_watchdog, tick}

-- The milliseconds that the always-on registers stand for.
abbrev pub analog_time : Rtc → ℕ
analog_time s = s.analog_seconds * 1000 + s.analog_msec_phase

pub record InRange (s : Rtc) : Type 0 where
  pub seconds_fit : s.analog_seconds < 2 ^ 32
  pub phase_fits : s.analog_msec_phase < 1000

abbrev SameClock : Rtc → Rtc → Type 0
SameClock s t = (t.analog_seconds ≡ s.analog_seconds) × (t.analog_msec_phase ≡ s.analog_msec_phase)

check_alarm-SameClock : (s : Rtc) → SameClock s (check_alarm s)
unfolding check_alarm update_irq
check_alarm-SameClock s =
    if_split (SameClock s) (bit (get_or s.persistent 0 0) 2 && s.seconds == s.alarm) _ _
      (λ _. (refl, refl)) (λ _. (refl, refl))

-- The rest of a tick does not touch the always-on clock.
rest-SameClock : (s : Rtc) → SameClock s (tick_watchdog (tick_irq (tick_millisecond s)))
rest-SameClock s =
    let (a, b) = milli s in
    let (c, d) = irq (tick_millisecond s) in
    let (e, f) = watchdog (tick_irq (tick_millisecond s)) in (e ∙ c ∙ a, f ∙ d ∙ b)
  where
    milli : (t : Rtc) → SameClock t (tick_millisecond t)
    milli t =
        unfold tick_millisecond in
        if_split (SameClock t) (leb (msec_resolution t) ((t.msec_resolution_phase + 1) % 2 ^ 8)) _ _
          (λ _. (refl, refl)) (λ _. (refl, refl))

    irq : (t : Rtc) → SameClock t (tick_irq t)
    irq t =
        unfold tick_irq update_irq in
        if_split (SameClock t) (bit t.ctrl 1) _ _ (λ _. (refl, refl)) (λ _. (refl, refl))

    watchdog : (t : Rtc) → SameClock t (tick_watchdog t)
    watchdog t =
        unfold tick_watchdog in
        if_split (SameClock t) (bit t.ctrl 4 && not (t.watchdog == 0)) _ _
          (λ _.
            if_split (SameClock t) (t.watchdog - 1 == 0) _ _ (λ _. (refl, refl))
              (λ _. (refl, refl)))
          (λ _. (refl, refl))

-- One millisecond later, modulo the width of the counter.
abbrev pub Later : Rtc → Rtc → Type 0
Later s t = InRange t × (analog_time t ≡ (analog_time s + 1) % (2 ^ 32 * 1000))

tick_second-Later : (s : Rtc) → InRange s → Later s (tick_second s)
unfolding tick_second
tick_second-Later s r =
    let counted = record s { analog_msec_phase = 0; analog_seconds = u32 (s.analog_seconds + 1) } in
    if_split (Later s) ((s.analog_msec_phase + 1) % 2 ^ 16 == 1000) _ _
      (λ full.
        if_split (Later s) (is_enabled s) _ _
          (λ _.
            let (a, b) =
              check_alarm-SameClock (record counted { seconds = counted.analog_seconds }) in
            (
              record { seconds_fit = omega (arith, a); phase_fits = omega (arith, b) },
              omega (arith, a, b, carried full),
            ))
          (λ _. (record { seconds_fit = omega arith; phase_fits = omega arith }, carried full)))
      (λ partly. (
        record {
          seconds_fit = r.seconds_fit;
          phase_fits = omega (arith, r.phase_fits, next_phase partly);
        },
        omega (arith, r.seconds_fit, r.phase_fits, next_phase partly),
      ))
  where
    carried :
        ((s.analog_msec_phase + 1) % 2 ^ 16 == 1000) ≡ true
        → u32 (s.analog_seconds + 1) * 1000 + 0 ≡ (analog_time s + 1) % (2 ^ 32 * 1000)
    carried full =
        let at_end : s.analog_msec_phase ≡ 999 = ground (arith, r.phase_fits) in
        omega (arith, at_end, r.seconds_fit)

    next_phase :
        ((s.analog_msec_phase + 1) % 2 ^ 16 == 1000) ≡ false
        → (s.analog_msec_phase + 1) % 2 ^ 16 < 1000
    next_phase partly = ground (arith, r.phase_fits)

-- From registers in range, each tick, with the clock enabled or gated, moves the always-on time
-- by one millisecond, modulo the width of the counter, and keeps the registers in range.
pub tick-Later : (s : Rtc) → InRange s → Later s (tick s)
unfolding tick
tick-Later s r =
    let t = tick_second s in
    let (range, time) = tick_second-Later s r in
    if_split (Later s) (not (is_enabled t)) _ _ (λ _. (range, time))
      λ _.
        let (a, b) = rest-SameClock t in
        (
          record {
            seconds_fit = omega (arith, a, range.seconds_fit);
            phase_fits = omega (arith, b, range.phase_fits);
          },
          omega (arith, a, b, time),
        )

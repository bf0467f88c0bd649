-- ===== src/Timrot/Measure.antt =====
-- The measurement of a duty cycle by timer 3 (hw/timer/stmp3770_timer.c).
use emu_gii.Prelude.{
  ℕ, ◌<◌, ◌+◌, ◌*◌, ◌^◌, ◌≡◌, refl, sym, ◌∙◌, ap, ap₂, subst, arith, bit_or, Bool, true, false, not,
  ◌==◌, leb, if◌then◌else◌, if_split,
}
use emu_gii.Bits.{bit, bit-bit_or, bit_or-add}
use emu_gii.Reg.{◌<<<◌}
use emu_gii.Timrot.State.{
  PtimerOps, Channel, Duty, Timrot, num_pwm_inputs, is_gated, is_duty_cycle, timctrl3_duty_valid,
}
use emu_gii.Timrot.Count.{test_signal_of, external_edge, end_phase, set_pwm_input}
use emu_gii.Timrot.Bus.{timcount_value}
use emu_gii.Timrot.Phases.{
  IsMeasuring, Stands, ticks, after_fall, after_rise, validated, edge-Stands, ticks-Stands,
  fall-Stands, rise-Stands, edge-end_phase,
}

module _ {P : Type 0} (pt : PtimerOps P) where
  -- The device once the input has its new level and the timers have counted the edge.
  counted : Timrot P → ℕ → Bool → Timrot P
  counted s channel level =
      external_edge pt (record s { pwm_input = λ i. if i == channel then level else s.pwm_input i })
        (1 + channel) (s.pwm_input channel) level

  counted-Stands :
      (rotctrl : ℕ) (t : Channel P) (d : Duty) (s : Timrot P) (channel : ℕ) (level : Bool)
      → is_duty_cycle t 3 ≡ true
      → Stands rotctrl t d s
      → Stands rotctrl t d (counted s channel level)
  unfolding counted
  counted-Stands rotctrl t d s channel level mode w =
      let e =
        edge-Stands pt (record s { pwm_input = λ i. if i == channel then level else s.pwm_input i })
          (1 + channel) (s.pwm_input channel) level
          (ap (λ (u : Channel P). is_duty_cycle u 3) w.third ∙ mode) in
      record { gate = e.gate ∙ w.gate; third = e.third ∙ w.third; duty = e.duty ∙ w.duty }

  IsMeasuring-moved :
      (channel rotctrl : ℕ) (t : Channel P) (d : Duty) (u : Timrot P)
      → Stands rotctrl t d u
      → IsMeasuring channel rotctrl t d
      → IsMeasuring channel u.rotctrl (u.timer 3) u.duty
  IsMeasuring-moved channel rotctrl t d u w v = record {
    runs = ap is_gated w.gate ∙ v.runs;
    input = v.input;
    mode = ap (λ (x : Channel P). is_duty_cycle x 3) w.third ∙ v.mode;
    signal = ap test_signal_of w.third ∙ v.signal;
    seen = ap (λ (x : Duty). x.test_signal_seen) w.duty ∙ v.seen;
  }

  -- An edge of the measured input, from a state that stands at the other level.
  set-end_phase :
      (channel rotctrl : ℕ) (t : Channel P) (d : Duty) (s : Timrot P) (level : Bool)
      → IsMeasuring channel rotctrl t d
      → d.test_signal_level ≡ not level
      → Stands rotctrl t d s
      → set_pwm_input pt s channel level ≡ end_phase pt (counted s channel level) level
  unfolding set_pwm_input counted
  set-end_phase channel rotctrl t d s level v opposite w =
      let u = counted s channel level in
      let e = counted-Stands rotctrl t d s channel level v.mode w in
      if_split (λ (x : Timrot P). x ≡ end_phase pt u level) (leb num_pwm_inputs channel) _ _
        (λ off. absurd (ground (arith, off, v.input)))
        (λ _.
          edge-end_phase pt u channel level (IsMeasuring-moved channel rotctrl t d u e v)
            (ap (λ (x : Duty). x.test_signal_level) e.duty ∙ opposite))

  falls :
      (channel rotctrl : ℕ) (t : Channel P) (d : Duty) (s : Timrot P)
      → IsMeasuring channel rotctrl t d
      → d.test_signal_level ≡ true
      → Stands rotctrl t d s
      → Stands rotctrl t (after_fall d) (set_pwm_input pt s channel false)
  falls channel rotctrl t d s v high w =
      let u = counted s channel false in
      let e = counted-Stands rotctrl t d s channel false v.mode w in
      let f = fall-Stands pt u in
      subst (Stands rotctrl t (after_fall d))
        (sym (set-end_phase channel rotctrl t d s false v high w))
        (record {
          gate = f.gate ∙ e.gate;
          third = f.third ∙ e.third;
          duty = f.duty ∙ ap after_fall e.duty;
        })

  rises :
      (channel rotctrl : ℕ) (t : Channel P) (d : Duty) (s : Timrot P)
      → IsMeasuring channel rotctrl t d
      → d.test_signal_level ≡ false
      → d.have_high ≡ true
      → Stands rotctrl t d s
      → Stands rotctrl (validated t) (after_rise d) (set_pwm_input pt s channel true)
  rises channel rotctrl t d s v low high w =
      let u = counted s channel true in
      let e = counted-Stands rotctrl t d s channel true v.mode w in
      let f = rise-Stands pt u (ap (λ (x : Duty). x.have_high) e.duty ∙ high) in
      subst (Stands rotctrl (validated t) (after_rise d))
        (sym (set-end_phase channel rotctrl t d s true v low w))
        (record {
          gate = f.gate ∙ e.gate;
          third = f.third ∙ ap validated e.third;
          duty = f.duty ∙ ap after_rise e.duty;
        })

  -- What TIMCOUNT3 shows of a measurement.
  shows :
      (rotctrl low high : ℕ) (t : Channel P) (d : Duty) (s : Timrot P)
      → is_duty_cycle t 3 ≡ true
      → d.low_count ≡ low
      → d.high_count ≡ high
      → high < 2 ^ 16
      → Stands rotctrl t d s
      → timcount_value pt s 3 ≡ low * 2 ^ 16 + high
  unfolding timcount_value
  shows rotctrl low high t d s mode l h bound w =
      if_split (λ (x : ℕ). x ≡ low * 2 ^ 16 + high) (is_duty_cycle (s.timer 3) 3) _ _
        (λ _.
          ap₂ (λ (x y : ℕ). bit_or (x <<< 16) y) (ap (λ (x : Duty). x.low_count) w.duty ∙ l)
            (ap (λ (x : Duty). x.high_count) w.duty ∙ h)
          ∙ bit_or-add 16 low high bound)
        (λ off.
          absurd (ground (arith, off, ap (λ (x : Channel P). is_duty_cycle x 3) w.third, mode)))

  -- The mode bit is not DUTY_VALID.
  validated-mode : (t : Channel P) → is_duty_cycle t 3 ≡ true → is_duty_cycle (validated t) 3 ≡ true
  unfolding bit
  validated-mode t mode = ground (arith, mode, bit-bit_or t.timctrl timctrl3_duty_valid 9)

  validated-bit : (t : Channel P) → bit (validated t).timctrl 10 ≡ true
  unfolding bit
  validated-bit t = ground (arith, bit-bit_or t.timctrl timctrl3_duty_valid 10)

  -- While timer 3 measures an input that has just risen, `m` ticks with the input high and `n` with it
  -- low, of less than 65536 each, and another rise leave `n` in the upper half of TIMCOUNT3, `m` in the
  -- lower one, and DUTY_VALID set.
  pub measure-shows :
      (s : Timrot P) (channel m n : ℕ)
      → IsMeasuring channel s.rotctrl (s.timer 3) s.duty
      → s.duty.test_signal_level ≡ true
      → s.duty.running_count ≡ 0
      → m < 2 ^ 16
      → n < 2 ^ 16
      → let fallen = set_pwm_input pt (ticks pt m s) channel false in
        let u = set_pwm_input pt (ticks pt n fallen) channel true in
        (timcount_value pt u 3 ≡ n * 2 ^ 16 + m) × (bit (u.timer 3).timctrl 10 ≡ true)
  measure-shows s channel m n v high fresh below_m below_n =
      let r = s.rotctrl in
      let t = s.timer 3 in
      let d0 = record s.duty { running_count = m } in
      let d1 = after_fall d0 in
      let d2 = record d1 { running_count = n } in
      let first =
        ticks-Stands pt r t s.duty s m v.mode fresh below_m
          (record { gate = refl; third = refl; duty = refl }) in
      let v0 : IsMeasuring channel r t d0 = record {
        runs = v.runs;
        input = v.input;
        mode = v.mode;
        signal = v.signal;
        seen = v.seen;
      } in
      let second = falls channel r t d0 (ticks pt m s) v0 high first in
      let third =
        ticks-Stands pt r t d1 (set_pwm_input pt (ticks pt m s) channel false) n v.mode refl below_n
          second in
      let v2 : IsMeasuring channel r t d2 = record {
        runs = v.runs;
        input = v.input;
        mode = v.mode;
        signal = v.signal;
        seen = v.seen;
      } in
      let fourth =
        rises channel r t d2 (ticks pt n (set_pwm_input pt (ticks pt m s) channel false)) v2 refl
          refl third in
      (
        shows r n m (validated t) (after_rise d2) _ (validated-mode t v.mode) refl refl below_m
            fourth,
        ap (λ (x : Channel P). bit x.timctrl 10) fourth.third ∙ validated-bit t,
      )

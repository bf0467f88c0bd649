-- ===== src/Timrot/Phases.antt =====
-- The phases of a measurement by timer 3 (hw/timer/stmp3770_timer.c): edges, ticks and ends.
use emu_gii.Prelude.{
  ℕ, zero, suc, ◌<◌, ◌+◌, ◌%◌, ◌^◌, ◌≡◌, refl, ◌∙◌, ap, ap₂, arith, bit_or, Bool, true, false, not,
  ◌||◌, ◌==◌, if◌then◌else◌, if_split, for_below, for_below_inv,
}
use emu_gii.Timrot.State.{
  PtimerOps, Channel, Duty, Timrot, is_gated, is_duty_cycle, change, timctrl3_duty_valid,
}
use emu_gii.Timrot.Count.{
  test_signal_of, counts_edge, decrement_external, external_edge, tick, end_phase, measure,
}

-- Timer 3 measures the input `channel`: the device runs, the timer is in the duty-cycle mode, and
-- its test signal is this input, whose level has been seen.
pub record IsMeasuring {P : Type 0} (channel rotctrl : ℕ) (t : Channel P) (d : Duty) : Type 0 where
  pub runs : is_gated rotctrl ≡ false
  pub input : channel < 5
  pub mode : is_duty_cycle t 3 ≡ true
  pub signal : test_signal_of t ≡ 1 + channel
  pub seen : d.test_signal_seen ≡ true

-- The gate, timer 3 and the measurement are those given.
pub record Stands {P : Type 0} (rotctrl : ℕ) (t : Channel P) (d : Duty) (s : Timrot P)
    : Type 0 where
  pub gate : s.rotctrl ≡ rotctrl
  pub third : s.timer 3 ≡ t
  pub duty : s.duty ≡ d

-- What the end of a phase leaves of timer 3 and of the measurement.
abbrev pub after_fall : Duty → Duty
after_fall d = record d {
  test_signal_level = false;
  running_count = 0;
  high_count = d.running_count;
  have_high = true;
}

abbrev pub after_rise : Duty → Duty
after_rise d = record d { test_signal_level = true; running_count = 0; low_count = d.running_count }

abbrev pub validated : {P : Type 0} → Channel P → Channel P
validated t = record t { timctrl = bit_or t.timctrl timctrl3_duty_valid }

module _ {P : Type 0} (pt : PtimerOps P) where
  -- A timer that measures counts no edges.
  decrement-duty : (t : Channel P) → is_duty_cycle t 3 ≡ true → decrement_external pt 3 t ≡ t
  unfolding decrement_external
  decrement-duty t mode =
      if_split (λ (u : Channel P). u ≡ t) (not t.running || is_duty_cycle t 3) _ _ (λ _. refl)
        (λ off. absurd (ground (arith, off, mode)))

  pub edge-Stands :
      (s : Timrot P) (select : ℕ) (old new : Bool)
      → is_duty_cycle (s.timer 3) 3 ≡ true
      → Stands s.rotctrl (s.timer 3) s.duty (external_edge pt s select old new)
  unfolding external_edge change
  edge-Stands s select old new mode =
      let start : Stands s.rotctrl (s.timer 3) s.duty s = record {
        gate = refl;
        third = refl;
        duty = refl;
      } in
      if_split (Stands s.rotctrl (s.timer 3) s.duty)
        ((if old then new else not new) || is_gated s.rotctrl) _ _ (λ _. start)
        (λ _.
          for_below_inv (λ _ u. Stands s.rotctrl (s.timer 3) s.duty u) 4
            (λ idx u. change u idx (body idx)) s start
            (λ idx u _ w. record {
              gate = w.gate;
              third =
                  if_split (λ (t : Channel P). t ≡ s.timer 3) (3 == idx) _ _
                    (λ here. at_three idx (ground (arith, here)) (u.timer 3) w.third)
                    (λ _. w.third);
              duty = w.duty;
            }))
    where
      body : ℕ → Channel P → Channel P
      body idx t = if counts_edge pt select old new t then decrement_external pt idx t else t

      at_three : (idx : ℕ) → idx ≡ 3 → (t : Channel P) → t ≡ s.timer 3 → body idx t ≡ s.timer 3
      at_three idx here t same =
          ap₂ body here same
          ∙ if_split (λ (u : Channel P). u ≡ s.timer 3) (counts_edge pt select old new (s.timer 3))
              _ _ (λ _. decrement-duty (s.timer 3) mode) (λ _. refl)

  -- `n` ticks of timer 3.
  abbrev pub ticks : ℕ → Timrot P → Timrot P
  ticks n s = for_below n (λ _ u. tick pt u 3) s

  tick-Stands :
      (s : Timrot P)
      → is_duty_cycle (s.timer 3) 3 ≡ true
      → Stands s.rotctrl
          (s.timer 3)
          (record s.duty { running_count = (s.duty.running_count + 1) % 2 ^ 16 })
          (tick pt s 3)
  unfolding tick
  tick-Stands s mode =
      if_split
        (Stands s.rotctrl (s.timer 3)
          (record s.duty { running_count = (s.duty.running_count + 1) % 2 ^ 16 }))
        (is_duty_cycle (s.timer 3) 3) _ _ (λ _. record { gate = refl; third = refl; duty = refl })
        (λ off. absurd (ground (arith, off, mode)))

  one_tick :
      (rotctrl : ℕ) (t : Channel P) (d : Duty) (s : Timrot P)
      → is_duty_cycle t 3 ≡ true
      → Stands rotctrl t d s
      → Stands rotctrl t (record d { running_count = (d.running_count + 1) % 2 ^ 16 }) (tick pt s 3)
  one_tick rotctrl t d s mode w =
      let e = tick-Stands s (ap (λ (u : Channel P). is_duty_cycle u 3) w.third ∙ mode) in
      record {
        gate = e.gate ∙ w.gate;
        third = e.third ∙ w.third;
        duty =
            e.duty
            ∙ ap (λ (x : Duty). record x { running_count = (x.running_count + 1) % 2 ^ 16 }) w.duty;
      }

  -- The ticks are counted from zero.
  pub ticks-Stands :
      (rotctrl : ℕ) (t : Channel P) (d : Duty) (s : Timrot P) (n : ℕ)
      → is_duty_cycle t 3 ≡ true
      → d.running_count ≡ 0
      → n < 2 ^ 16
      → Stands rotctrl t d s
      → Stands rotctrl t (record d { running_count = n }) (ticks n s)
  unfolding for_below
  ticks-Stands rotctrl t d s zero mode fresh h w = record {
    gate = w.gate;
    third = w.third;
    duty = w.duty ∙ ap (λ (x : ℕ). record d { running_count = x }) fresh;
  }
  ticks-Stands rotctrl t d s (suc n) mode fresh h w =
      let e =
        one_tick rotctrl t (record d { running_count = n }) (ticks n s) mode
          (ticks-Stands rotctrl t d s n mode fresh (omega arith) w) in
      record {
        gate = e.gate;
        third = e.third;
        duty = e.duty ∙ ap (λ (x : ℕ). record d { running_count = x }) (omega arith);
      }

  pub fall-Stands :
      (s : Timrot P) → Stands s.rotctrl (s.timer 3) (after_fall s.duty) (end_phase pt s false)
  unfolding end_phase
  fall-Stands s = record { gate = refl; third = refl; duty = refl }

  pub rise-Stands :
      (s : Timrot P)
      → s.duty.have_high ≡ true
      → Stands s.rotctrl (validated (s.timer 3)) (after_rise s.duty) (end_phase pt s true)
  unfolding end_phase change
  rise-Stands s high =
      if_split (Stands s.rotctrl (validated (s.timer 3)) (after_rise s.duty)) s.duty.have_high _ _
        (λ _. record { gate = refl; third = refl; duty = refl })
        (λ off. absurd (ground (arith, off, high)))

  -- An edge of the measured input ends the phase.
  pub edge-end_phase :
      (s : Timrot P) (channel : ℕ) (level : Bool)
      → IsMeasuring channel s.rotctrl (s.timer 3) s.duty
      → s.duty.test_signal_level ≡ not level
      → (measure pt s channel level) ≡ end_phase pt s level
  unfolding measure
  edge-end_phase s channel level v opposite =
      let E = λ (u : Timrot P). u ≡ end_phase pt s level in
      if_split E (is_gated s.rotctrl || not (is_duty_cycle (s.timer 3) 3)) _ _
        (λ off. absurd (ground (arith, off, v.runs, v.mode)))
        (λ _.
          if_split E (not (test_signal_of (s.timer 3) == 1 + channel)) _ _
            (λ off. absurd (ground (arith, off, v.signal)))
            (λ _.
              if_split E (not s.duty.test_signal_seen) _ _
                (λ off. absurd (ground (arith, off, v.seen)))
                (λ _.
                  if_split E (if s.duty.test_signal_level then level else not level) _ _
                    (λ off. absurd (same_level level s.duty.test_signal_level off opposite))
                    (λ _. refl))))
    where
      same_level : (a b : Bool) → (if b then a else not a) ≡ true → b ≡ not a → ⊥
      same_level true true e f = ground (arith, e, f)
      same_level true false e f = ground (arith, e, f)
      same_level false true e f = ground (arith, e, f)
      same_level false false e f = ground (arith, e, f)

-- ===== src/Tests/Knob.antt =====
-- The timers and the rotary decoder at concrete states.
use emu_gii.Prelude.{
  ℕ, ◌+◌, ◌*◌, ◌%◌, ◌^◌, ◌≡◌, refl, true, false, not, arith, [], ◌∷◌, ltb, if◌then◌else◌, ◌==◌,
}
use emu_gii.Bits.{bit}
use emu_gii.Reg.{has}
use emu_gii.Timrot.State.{PtimerOps, Filter, Timrot}
use emu_gii.Timrot.Rotary.{rotary_transition}
use emu_gii.Timrot.Count.{set_pwm_input}
use emu_gii.Timrot.Bus.{reset, timcount_value}
use emu_gii.Timrot.Invariant.{IsValid}
use emu_gii.Timrot.Machine.{Event, step, Reach, Reach-LinesFollow}
use emu_gii.Timrot.Debounce.{resting, hold, sample_all, hold-stable, IsBounce, bounce-stable}
use emu_gii.Timrot.Turns.{
  notch, forward, backward, turns, turns-turn_back, follow, IsAway, missed_step,
}
use emu_gii.Timrot.Phases.{IsMeasuring, ticks}
use emu_gii.Timrot.Measure.{measure-shows}

-- A timer that holds its count and does not run by itself.
abbrev still_timer : PtimerOps ℕ
still_timer = record {
  get_count = λ p. p;
  set_count = λ p n. n;
  set_limit = λ p limit reload. if reload then limit else p;
  set_freq = λ p freq. p;
  run = λ p oneshot. p;
  stop = λ p. p;
}

abbrev blank : Filter
blank = record { stable = false; candidate = false; samples = 0 }

-- Timer 3 measures PWM input 2, which has just risen.
abbrev rising_input : Timrot ℕ
rising_input = record {
  rotctrl = 0x3e00_0000;
  rotcount = 0;
  rotary_tick = 1;
  pwm_input = λ i. i == 2;
  rotary = record {
    state = 0;
    filter_a = blank;
    filter_b = blank;
    initialized = false;
    error = false;
  };
  duty = record {
    running_count = 0;
    low_count = 0;
    high_count = 0;
    have_high = false;
    test_signal_level = true;
    test_signal_seen = true;
  };
  timer = λ i. record {
    timctrl = if i == 3 then 0x3_020C else 0x4003;
    fixed_count = 5;
    ptimer = 5;
    running = true;
    irq = false;
  };
  version = 0x0101_0000;
}

Reach-LinesFollow_example : IsValid (
    step still_timer
      (step still_timer (reset still_timer rising_input) (Event.timer_expires 1))
      (Event.bus_write 0x044 0x4000 4))
Reach-LinesFollow_example =
    Reach-LinesFollow still_timer (
      Reach.next (Event.bus_write 0x044 0x4000 4) (Reach.next (Event.timer_expires 1) Reach.booted))

-- Three of four samples.
hold-stable_example :
    (hold 3 (not false) 4 (resting false)).stable ≡ (if ltb 3 4 then false else not false)
hold-stable_example = hold-stable false 3 4 (omega arith) (omega arith)

bounce-stable_example :
    (sample_all (not false ∷ not false ∷ false ∷ not false ∷ []) 4 (resting false)).stable ≡ false
bounce-stable_example =
    bounce-stable 4 false (not false ∷ not false ∷ false ∷ not false ∷ []) (omega arith) (
      IsBounce.away (omega arith)
        (IsBounce.away (omega arith) (IsBounce.back (IsBounce.away (omega arith) IsBounce.ended))))

turns-turn_back_example :
    (turns 3 forward (notch 0xFFFE) ≡ notch ((0xFFFE + 3) % 2 ^ 16))
    × (turns 3 backward (turns 3 forward (notch 0xFFFE)) ≡ notch 0xFFFE)
turns-turn_back_example = turns-turn_back 3 0xFFFE (omega arith)

missed_step_example :
    rotary_transition (follow (2 ∷ 3 ∷ 1 ∷ []) (rotary_transition (notch 7) 3)) 0 ≡ notch 7
missed_step_example =
    missed_step (2 ∷ 3 ∷ 1 ∷ []) 7
      (IsAway.between refl (IsAway.between refl (IsAway.between refl IsAway.all_seen)))

rising_input-IsMeasuring :
    IsMeasuring 2 rising_input.rotctrl (rising_input.timer 3) rising_input.duty
unfolding bit has
rising_input-IsMeasuring = record {
  runs = refl;
  input = omega arith;
  mode = refl;
  signal = refl;
  seen = refl;
}

measure-shows_example :
    let fallen = set_pwm_input still_timer (ticks still_timer 5 rising_input) 2 false in
    let u = set_pwm_input still_timer (ticks still_timer 9 fallen) 2 true in
    (timcount_value still_timer u 3 ≡ 9 * 2 ^ 16 + 5) × (bit (u.timer 3).timctrl 10 ≡ true)
measure-shows_example =
    measure-shows still_timer rising_input 2 5 9 rising_input-IsMeasuring refl refl (omega arith)
      (omega arith)

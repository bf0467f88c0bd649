-- ===== src/Timrot/Count.antt =====
-- The counters of hw/timer/stmp3770_timer.c: their configuration, ticks and external edges, and the
-- sampling of the rotary decoder.
use emu_gii.Prelude.{
  ℕ, ◌+◌, ◌-◌, ◌/◌, ◌%◌, ◌^◌, bit_and, bit_or, Bool, true, false, not, ◌&&◌, ◌||◌, ◌==◌, leb,
  if◌then◌else◌, for_below,
}
use emu_gii.Bits.{bit}
use emu_gii.Reg.{u32, ◌<<<◌, ◌>>>◌}
use emu_gii.Timrot.State.{
  PtimerOps, Channel, Filter, Duty, Timrot, num_timers, num_pwm_inputs, timctrl_irq,
  timctrl3_duty_valid, is_gated, is_pwm, select_of, is_duty_cycle, change, update_irq,
  external_source,
}
use emu_gii.Timrot.Rotary.{
  rotary_debounce, rotary_samples_required, rotary_input, select_a, select_b, rotary_uses_pwm,
  turn_knob, level_value,
}

-- The frequency before the prescaler, by the source: none for NEVER and the external inputs.
unfoldable pub source_freq : ℕ → ℕ
source_freq select =
    if leb select 7
    then 0
    else if select == 8
    then 32768
    else if select == 9
    then 8192
    else if select == 10
    then 4096
    else if select == 11
    then 1024
    else 24000000

module _ {P : Type 0} where
  unfoldable pub get_freq : ℕ → Channel P → ℕ
  unfolding source_freq
  get_freq rotctrl t =
      if is_gated rotctrl
      then 0
      else source_freq (select_of t) / (1 <<< bit_and (t.timctrl >>> 4) 3)

  abbrev pub test_signal_of : Channel P → ℕ
  test_signal_of t = bit_and (t.timctrl >>> 16) 0xF

module _ {P : Type 0} (pt : PtimerOps P) where
  -- The last count of the timer: its interrupt, and the count again if it reloads.
  unfoldable pub expire_external : Channel P → Channel P
  expire_external t =
      let raised = record t { timctrl = bit_or t.timctrl timctrl_irq } in
      if bit raised.timctrl 6
      then record raised { ptimer = pt.set_count raised.ptimer raised.fixed_count }
      else record raised { running = false }

  unfoldable pub decrement_external : ℕ → Channel P → Channel P
  unfolding expire_external
  decrement_external idx t =
      let count = u32 (pt.get_count t.ptimer) in
      let counted = record t { ptimer = pt.set_count t.ptimer (count - 1) } in
      if not t.running || is_duty_cycle t idx
      then t
      else if count == 0
      then t
      else update_irq (if count - 1 == 0 then expire_external counted else counted)

  -- A timer counts the edges of its source that its polarity asks for.
  abbrev pub counts_edge : ℕ → Bool → Bool → Channel P → Bool
  counts_edge select old_level new_level t =
      select_of t == select
      && (if old_level && not new_level then bit t.timctrl 8 else not (bit t.timctrl 8))

  unfoldable pub external_edge : Timrot P → ℕ → Bool → Bool → Timrot P
  unfolding decrement_external change for_below
  external_edge s select old_level new_level =
      if (if old_level then new_level else not new_level) || is_gated s.rotctrl
      then s
      else for_below num_timers
          (λ idx u.
            change u idx (λ t.
              if counts_edge select old_level new_level t then decrement_external idx t else t))
          s

  -- The count at the start, or a new limit under the count that runs.
  unfoldable pub load_count : Bool → Channel P → Channel P
  load_count reload_count t =
      if reload_count || not t.running
      then record t { ptimer = pt.set_limit t.ptimer t.fixed_count true }
      else record t {
        ptimer = pt.set_count (pt.set_limit t.ptimer t.fixed_count false) (pt.get_count t.ptimer);
      }

  unfoldable pub start_duty : ℕ → Channel P → Channel P
  start_duty freq t = record t {
    ptimer = pt.run (pt.set_limit (pt.set_freq t.ptimer freq) 1 true) false;
    running = true;
  }

  unfoldable pub start_external : Channel P → Channel P
  start_external t = record t { ptimer = pt.stop t.ptimer; running = not (t.fixed_count == 0) }

  unfoldable pub start_internal : ℕ → Channel P → Channel P
  start_internal freq t =
      let p = pt.set_freq t.ptimer freq in
      if t.fixed_count == 0
      then record t { ptimer = pt.stop p; running = false }
      else record t { ptimer = pt.run p (not (bit t.timctrl 6)); running = true }

  -- What `stmp3770_timer_configure` does to its channel.
  unfoldable pub configure_channel : ℕ → ℕ → Bool → Channel P → Channel P
  unfolding get_freq load_count start_duty start_external start_internal
  configure_channel rotctrl idx reload_count t =
      let freq = get_freq rotctrl t in
      if freq == 0 && not (external_source t)
      then update_irq (record t { ptimer = pt.stop t.ptimer; running = false })
      else if is_duty_cycle t idx
      then start_duty freq t
      else if external_source t
      then update_irq (start_external (load_count reload_count t))
      else update_irq (start_internal freq (load_count reload_count t))

  -- What it does to the measurement: the level of the test signal is the one that the input has.
  unfoldable pub configure_duty : Timrot P → ℕ → Duty
  unfolding get_freq
  configure_duty s idx =
      let t = s.timer idx in
      let test_signal = test_signal_of t in
      if get_freq s.rotctrl t == 0 && not (external_source t)
      then s.duty
      else if is_duty_cycle t idx && is_pwm test_signal
      then record s.duty {
        test_signal_level = s.pwm_input (test_signal - 1);
        test_signal_seen = true;
      }
      else s.duty

  unfoldable pub configure : Timrot P → ℕ → Bool → Timrot P
  unfolding configure_channel configure_duty change
  configure s idx reload_count =
      record (change s idx (configure_channel s.rotctrl idx reload_count)) {
        duty = configure_duty s idx;
      }

  unfoldable pub tick_channel : Channel P → Channel P
  tick_channel t =
      let raised = bit_or t.timctrl timctrl_irq in
      update_irq (record t { timctrl = raised; running = bit raised 6 })

  -- `stmp3770_timer_tick`, the callback of a timer
  unfoldable pub tick : Timrot P → ℕ → Timrot P
  unfolding tick_channel change
  tick s idx =
      if is_duty_cycle (s.timer idx) idx
      then record s { duty = record s.duty { running_count = (s.duty.running_count + 1) % 2 ^ 16 } }
      else change s idx tick_channel

  -- The first sample after a start: both levels are stable.
  unfoldable pub first_sample : Timrot P → Bool → Bool → Timrot P
  first_sample s input_a input_b =
      let settled = λ (f : Filter) (input : Bool). record f { stable = input; candidate = input } in
      record s {
        rotary = record s.rotary {
          filter_a = settled s.rotary.filter_a input_a;
          filter_b = settled s.rotary.filter_b input_b;
          state = bit_or (level_value input_b <<< 1) (level_value input_a);
          initialized = true;
        };
      }

  -- A sample of both inputs: edges of the filtered levels count, and turn the knob.
  unfoldable pub next_sample : Timrot P → Bool → Bool → Timrot P
  unfolding rotary_debounce external_edge turn_knob
  next_sample s input_a input_b =
      let required = rotary_samples_required s.rotctrl in
      let a = rotary_debounce input_a s.rotary.filter_a required in
      let b = rotary_debounce input_b s.rotary.filter_b required in
      let filtered = record s {
        rotary = record s.rotary { filter_a = a.filter; filter_b = b.filter };
      } in
      let first =
        if a.changed
        then external_edge filtered 6 s.rotary.filter_a.stable a.filter.stable
        else filtered in
      let second =
        if b.changed
        then external_edge first 7 s.rotary.filter_b.stable b.filter.stable
        else first in
      if a.changed || b.changed
      then turn_knob second
          (bit_or (level_value b.filter.stable <<< 1) (level_value a.filter.stable))
      else second

  unfoldable pub rotary_tick : Timrot P → Timrot P
  unfolding rotary_input first_sample next_sample
  rotary_tick s =
      let input_a = rotary_input s (select_a s) (bit s.rotctrl 8) in
      let input_b = rotary_input s (select_b s) (bit s.rotctrl 9) in
      if is_gated s.rotctrl
      then s
      else if not s.rotary.initialized
      then first_sample s input_a input_b
      else next_sample s input_a input_b

  unfoldable pub rearm_rotary : Timrot P → Bool → Timrot P
  rearm_rotary s reset_sampling =
      let stopped = pt.stop s.rotary_tick in
      let r = s.rotary in
      if is_gated s.rotctrl || not (rotary_uses_pwm s)
      then record s { rotary_tick = stopped }
      else record s {
        rotary_tick = pt.run (pt.set_limit (pt.set_freq stopped 32768) 1 true) false;
        rotary =
            if reset_sampling
            then record r {
              initialized = false;
              error = false;
              filter_a = record r.filter_a { samples = 0 };
              filter_b = record r.filter_b { samples = 0 };
            }
            else r;
      }

  -- An edge of the test signal ends a phase: the count of the phase that ended is kept.
  unfoldable pub end_phase : Timrot P → Bool → Timrot P
  unfolding change
  end_phase s level =
      let count = s.duty.running_count in
      let d = record s.duty { test_signal_level = level; running_count = 0 } in
      if level
      then (if d.have_high
          then record (change s 3
              (λ t. record t { timctrl = bit_or t.timctrl timctrl3_duty_valid })) {
                duty = record d { low_count = count };
              }
          else record s { duty = record d { low_count = count } })
      else record s { duty = record d { high_count = count; have_high = true } }

  unfoldable pub measure : Timrot P → ℕ → Bool → Timrot P
  unfolding end_phase
  measure s channel level =
      let t = s.timer 3 in
      if is_gated s.rotctrl || not (is_duty_cycle t 3)
      then s
      else if not (test_signal_of t == 1 + channel)
      then s
      else if not s.duty.test_signal_seen
      then record s { duty = record s.duty { test_signal_level = level; test_signal_seen = true } }
      else if (if s.duty.test_signal_level then level else not level)
      then s
      else end_phase s level

  unfoldable pub set_pwm_input : Timrot P → ℕ → Bool → Timrot P
  unfolding external_edge measure
  set_pwm_input s channel level =
      let stored = record s { pwm_input = λ i. if i == channel then level else s.pwm_input i } in
      if leb num_pwm_inputs channel
      then s
      else measure (external_edge stored (1 + channel) (s.pwm_input channel) level) channel level

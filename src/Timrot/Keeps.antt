-- ===== src/Timrot/Keeps.antt =====
-- The counters, the decoder and the measurement keep the invariant (hw/timer/stmp3770_timer.c).
use emu_gii.Prelude.{
  ℕ, ◌<◌, ◌+◌, ◌^◌, ◌%◌, ◌≡◌, refl, subst, arith, bit_or, bit_xor, Bool, true, false, not, ◌&&◌,
  ◌||◌, ◌==◌, if◌then◌else◌, if_split, for_below_inv,
}
use emu_gii.Bits.{bit_and-lt}
use emu_gii.Reg.{u32, ◌<<<◌}
use emu_gii.Timrot.State.{
  PtimerOps, Channel, Timrot, is_gated, is_pwm, is_duty_cycle, change, external_source,
}
use emu_gii.Timrot.Rotary.{
  Knob, complete_turn, rotary_transition, turn_knob, level_value, rotary_uses_pwm, rotary_debounce,
  rotary_samples_required,
}
use emu_gii.Timrot.Count.{
  get_freq, test_signal_of, counts_edge, decrement_external, external_edge, configure_duty,
  configure_channel, configure, tick, tick_channel, first_sample, next_sample, rotary_tick,
  rearm_rotary,
}
use emu_gii.Timrot.Invariant.{
  Follows, IsCounted, IsMeasured, IsValidBut, change-IsValidBut, tick_channel-Follows,
  tick_channel-IsCounted, decrement-Follows, decrement-IsCounted, configure-Follows,
  configure-IsCounted,
}

pub record IsTurned (k : Knob) : Type 0 where
  pub state : k.state < 4
  pub count : k.count < 2 ^ 16

complete_turn-lt : (state count : ℕ) → count < 2 ^ 16 → complete_turn state count < 2 ^ 16
unfolding complete_turn
complete_turn-lt state count h =
    if_split (λ (x : ℕ). x < 2 ^ 16) (state == 1) _ _
      (λ _. bit_and-lt 16 (u32 (count + 0xffff_ffff)) 0xFFFF (omega arith))
      (λ _.
        if_split (λ (x : ℕ). x < 2 ^ 16) (state == 2) _ _
          (λ _. bit_and-lt 16 (u32 (count + 1)) 0xFFFF (omega arith)) (λ _. h))

transition-IsTurned :
    (k : Knob) (input : ℕ) → input < 4 → IsTurned k → IsTurned (rotary_transition k input)
unfolding rotary_transition
transition-IsTurned k input h v =
    if_split IsTurned (input == k.state) _ _ (λ _. v)
      (λ _.
        if_split IsTurned k.error _ _ (λ _. record { state = h; count = v.count })
          (λ _.
            if_split IsTurned (not (bit_xor k.state input == 1) && not (bit_xor k.state input == 2))
              _ _ (λ _. record { state = h; count = v.count })
              (λ _.
                if_split IsTurned (not (input == 0)) _ _
                  (λ _. record { state = h; count = v.count })
                  (λ _. record { state = h; count = complete_turn-lt k.state k.count v.count }))))

levels-lt : (a b : Bool) → bit_or (level_value b <<< 1) (level_value a) < 4
levels-lt true true = omega arith
levels-lt true false = omega arith
levels-lt false true = omega arith
levels-lt false false = omega arith

module _ {P : Type 0} (loose : ℕ) where
  -- The invariant looks at the timers, ROTCOUNT, the decoder's state and the measured counts.
  pub repack :
      (s t : Timrot P)
      → s.timer ≡ t.timer
      → t.rotcount < 2 ^ 16
      → t.rotary.state < 4
      → IsMeasured t.duty
      → IsValidBut loose s
      → IsValidBut loose t
  repack s t same rotcount knob measured v = record {
    follows = λ i h closed. subst (λ timer. Follows (timer i)) same (v.follows i h closed);
    counted = λ i h. subst (λ timer. IsCounted (timer i)) same (v.counted i h);
    rotcount = rotcount;
    knob = knob;
    measured = measured;
  }

  -- A change of the pins, the clock or the filters.
  pub still :
      (s t : Timrot P)
      → s.timer ≡ t.timer
      → s.rotcount ≡ t.rotcount
      → s.rotary.state ≡ t.rotary.state
      → s.duty ≡ t.duty
      → IsValidBut loose s
      → IsValidBut loose t
  still s t timer rotcount knob duty v =
      repack s t timer (subst (λ (x : ℕ). x < 2 ^ 16) rotcount v.rotcount)
        (subst (λ (x : ℕ). x < 4) knob v.knob) (subst IsMeasured duty v.measured) v

  pub turn_knob-IsValid :
      (s : Timrot P) (input : ℕ)
      → input < 4
      → IsValidBut loose s
      → IsValidBut loose (turn_knob s input)
  unfolding turn_knob
  turn_knob-IsValid s input h v =
      let turned =
        transition-IsTurned
          (record { state = s.rotary.state; error = s.rotary.error; count = s.rotcount }) input h
          (record { state = v.knob; count = v.rotcount }) in
      repack s (turn_knob s input) refl turned.count turned.state v.measured v

module _ {P : Type 0} (pt : PtimerOps P) (loose : ℕ) where
  pub external_edge-IsValid :
      (s : Timrot P) (select : ℕ) (old_level new_level : Bool)
      → IsValidBut loose s
      → IsValidBut loose (external_edge pt s select old_level new_level)
  unfolding external_edge
  external_edge-IsValid s select old_level new_level v =
      if_split (IsValidBut loose)
        ((if old_level then new_level else not new_level) || is_gated s.rotctrl) _ _ (λ _. v)
        (λ _.
          for_below_inv (λ _ u. IsValidBut loose u) 4 _ s v
            (λ idx u _ w.
              change-IsValidBut loose u idx _ (λ t h. counted idx t h) (λ _ t f. follows idx t f)
                w))
    where
      body : ℕ → Channel P → Channel P
      body idx t =
          if counts_edge pt select old_level new_level t then decrement_external pt idx t else t

      counted : (idx : ℕ) (t : Channel P) → IsCounted t → IsCounted (body idx t)
      counted idx t h =
          if_split IsCounted (counts_edge pt select old_level new_level t) _ _
            (λ _. decrement-IsCounted pt idx t h) (λ _. h)

      follows : (idx : ℕ) (t : Channel P) → Follows t → Follows (body idx t)
      follows idx t f =
          if_split Follows (counts_edge pt select old_level new_level t) _ _
            (λ _. decrement-Follows pt idx t f) (λ _. f)

  configure_duty-IsMeasured :
      (s : Timrot P) (idx : ℕ) → IsMeasured s.duty → IsMeasured (configure_duty pt s idx)
  unfolding configure_duty
  configure_duty-IsMeasured s idx m =
      let t = s.timer idx in
      if_split IsMeasured (get_freq s.rotctrl t == 0 && not (external_source t)) _ _ (λ _. m)
        (λ _.
          if_split IsMeasured (is_duty_cycle t idx && is_pwm (test_signal_of t)) _ _
            (λ _. record { running = m.running; low = m.low; high = m.high }) (λ _. m))

  pub configure-IsValid :
      (s : Timrot P) (idx : ℕ) (reload : Bool)
      → IsValidBut loose s
      → IsValidBut loose (configure pt s idx reload)
  unfolding configure change
  configure-IsValid s idx reload v =
      let changed =
        change-IsValidBut loose s idx (configure_channel pt s.rotctrl idx reload)
          (configure-IsCounted pt s.rotctrl idx reload)
          (λ _. configure-Follows pt s.rotctrl idx reload) v in
      repack loose (change s idx (configure_channel pt s.rotctrl idx reload))
        (configure pt s idx reload) refl v.rotcount v.knob
        (configure_duty-IsMeasured s idx v.measured) changed

  pub tick-IsValid :
      (s : Timrot P) (idx : ℕ) → IsValidBut loose s → IsValidBut loose (tick pt s idx)
  unfolding tick
  tick-IsValid s idx v =
      if_split (IsValidBut loose) (is_duty_cycle (s.timer idx) idx) _ _
        (λ _.
          repack loose s
            (record s {
              duty = record s.duty { running_count = (s.duty.running_count + 1) % 2 ^ 16 };
            })
            refl v.rotcount v.knob
            (record { running = omega arith; low = v.measured.low; high = v.measured.high }) v)
        (λ _.
          change-IsValidBut loose s idx (tick_channel pt) (tick_channel-IsCounted pt)
            (λ _ t _. tick_channel-Follows pt t) v)

  first_sample-IsValid :
      (s : Timrot P) (a b : Bool) → IsValidBut loose s → IsValidBut loose (first_sample pt s a b)
  unfolding first_sample
  first_sample-IsValid s a b v =
      repack loose s (first_sample pt s a b) refl v.rotcount (levels-lt a b) v.measured v

  edge_if-IsValid :
      (s : Timrot P) (changed : Bool) (select : ℕ) (old new : Bool)
      → IsValidBut loose s
      → IsValidBut loose (if changed then external_edge pt s select old new else s)
  edge_if-IsValid s changed select old new v =
      if_split (IsValidBut loose) changed _ _ (λ _. external_edge-IsValid s select old new v)
        (λ _. v)

  next_sample-IsValid :
      (s : Timrot P) (a b : Bool) → IsValidBut loose s → IsValidBut loose (next_sample pt s a b)
  unfolding next_sample
  next_sample-IsValid s input_a input_b v =
      let required = rotary_samples_required s.rotctrl in
      let a = rotary_debounce input_a s.rotary.filter_a required in
      let b = rotary_debounce input_b s.rotary.filter_b required in
      let filtered = record s {
        rotary = record s.rotary { filter_a = a.filter; filter_b = b.filter };
      } in
      let second = edge_if-IsValid _ b.changed 7 s.rotary.filter_b.stable b.filter.stable (
        edge_if-IsValid filtered a.changed 6 s.rotary.filter_a.stable a.filter.stable
          (still loose s filtered refl refl refl refl v)) in
      if_split (IsValidBut loose) (a.changed || b.changed) _ _
        (λ _. turn_knob-IsValid loose _ _ (levels-lt a.filter.stable b.filter.stable) second)
        (λ _. second)

  pub rotary_tick-IsValid :
      (s : Timrot P) → IsValidBut loose s → IsValidBut loose (rotary_tick pt s)
  unfolding rotary_tick
  rotary_tick-IsValid s v =
      if_split (IsValidBut loose) (is_gated s.rotctrl) _ _ (λ _. v)
        (λ _.
          if_split (IsValidBut loose) (not s.rotary.initialized) _ _
            (λ _. first_sample-IsValid s _ _ v) (λ _. next_sample-IsValid s _ _ v))

  pub rearm_rotary-IsValid :
      (s : Timrot P) (reset_sampling : Bool)
      → IsValidBut loose s
      → IsValidBut loose (rearm_rotary pt s reset_sampling)
  unfolding rearm_rotary
  rearm_rotary-IsValid s true v =
      if_split (IsValidBut loose) (is_gated s.rotctrl || not (rotary_uses_pwm s)) _ _
        (λ _. still loose s _ refl refl refl refl v) (λ _. still loose s _ refl refl refl refl v)
  rearm_rotary-IsValid s false v =
      if_split (IsValidBut loose) (is_gated s.rotctrl || not (rotary_uses_pwm s)) _ _
        (λ _. still loose s _ refl refl refl refl v) (λ _. still loose s _ refl refl refl refl v)

-- ===== src/Timrot/Rotary.antt =====
-- The rotary decoder of hw/timer/stmp3770_timer.c: the filters of its inputs and the count.
use emu_gii.Prelude.{
  ℕ, ◌+◌, ◌-◌, ◌%◌, ◌^◌, bit_and, bit_xor, Bool, true, false, not, ◌&&◌, ◌||◌, ◌==◌, ltb,
  if◌then◌else◌, xor,
}
use emu_gii.Reg.{u32, ◌<<<◌, ◌>>>◌}
use emu_gii.Timrot.State.{Timrot, Filter, is_pwm}

-- A level as a number.
abbrev pub level_value : Bool → ℕ
level_value level = if level then 1 else 0

-- `input == level`
abbrev pub is_level : Bool → Bool → Bool
is_level input level = not (xor input level)

-- What a filter returns: whether the stable level changed.
pub record Filtered : Type 0 where
  pub filter : Filter
  pub changed : Bool

-- One more sample of the candidate's level, or the first of another.
unfoldable pub count_sample : Bool → Filter → Filter
count_sample input f =
    if is_level input f.candidate
    then record f { samples = (f.samples + 1) % 2 ^ 8 }
    else record f { candidate = input; samples = 1 }

unfoldable pub rotary_debounce : Bool → Filter → ℕ → Filtered
unfolding count_sample
rotary_debounce input f required =
    let g = count_sample input f in
    if is_level input f.stable
    then record { filter = record f { candidate = input; samples = 0 }; changed = false }
    else if ltb g.samples required
    then record { filter = g; changed = false }
    else record { filter = record g { stable = input; samples = 0 }; changed = true }

-- `1U << (3 - oversample)`
abbrev pub rotary_samples_required : ℕ → ℕ
rotary_samples_required rotctrl = 1 <<< (3 - bit_and (rotctrl >>> 10) 3)

-- The fields that a transition of the inputs changes.
pub record Knob : Type 0 where
  pub state : ℕ
  pub error : Bool
  pub count : ℕ

-- `input == 0`: a turn is complete, in the direction of the state before.
unfoldable pub complete_turn : ℕ → ℕ → ℕ
complete_turn state count =
    if state == 1
    then bit_and (u32 (count + 0xffff_ffff)) 0xFFFF
    else if state == 2
    then bit_and (u32 (count + 1)) 0xFFFF
    else count

unfoldable pub rotary_transition : Knob → ℕ → Knob
unfolding complete_turn
rotary_transition k input =
    let step = bit_xor k.state input in
    if input == k.state
    then k
    else if k.error
    then record k { state = input; error = if input == 0 then false else k.error }
    else if not (step == 1) && not (step == 2)
    then record k { state = input; error = true }
    else if not (input == 0)
    then record k { state = input }
    else record k { state = input; count = complete_turn k.state k.count }

module _ {P : Type 0} where
  unfoldable pub rotary_input : Timrot P → ℕ → Bool → Bool
  rotary_input s select polarity =
      xor (if is_pwm select then s.pwm_input (select - 1) else false) polarity

  abbrev pub select_a : Timrot P → ℕ
  select_a s = bit_and (s.rotctrl >>> 0) 7

  abbrev pub select_b : Timrot P → ℕ
  select_b s = bit_and (s.rotctrl >>> 4) 7

  abbrev pub rotary_uses_pwm : Timrot P → Bool
  rotary_uses_pwm s = is_pwm (select_a s) || is_pwm (select_b s)

  -- `stmp3770_timer_rotary_transition` on the state
  unfoldable pub turn_knob : Timrot P → ℕ → Timrot P
  unfolding rotary_transition
  turn_knob s input =
      let k =
        rotary_transition
          (record { state = s.rotary.state; error = s.rotary.error; count = s.rotcount }) input in
      record s { rotcount = k.count; rotary = record s.rotary { state = k.state; error = k.error } }

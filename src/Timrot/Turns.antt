-- ===== src/Timrot/Turns.antt =====
-- Turns of the rotary knob (stmp3770_timer_rotary_transition of hw/timer/stmp3770_timer.c).
use emu_gii.Prelude.{
  ℕ, zero, suc, ◌<◌, ◌+◌, ◌-◌, ◌%◌, ◌^◌, ◌≡◌, refl, ◌∙◌, ap, arith, ◌*◌, true, false, ◌==◌,
  if_split, for_below, List, [], ◌∷◌,
}
use emu_gii.Bits.{bit_and_mask}
use emu_gii.Reg.{u32}
use emu_gii.Timrot.Rotary.{Knob, complete_turn, rotary_transition}

-- The knob at rest in a notch, with a count.
abbrev pub notch : ℕ → Knob
notch count = record { state = 0; error = false; count = count }

-- From one notch to the next: one input after the other closes, and they open in the same order.
abbrev pub forward : Knob → Knob
forward k = rotary_transition (rotary_transition (rotary_transition (rotary_transition k 1) 3) 2) 0

abbrev pub backward : Knob → Knob
backward k = rotary_transition (rotary_transition (rotary_transition (rotary_transition k 2) 3) 1) 0

abbrev pub turns : ℕ → (Knob → Knob) → Knob → Knob
turns n turn k = for_below n (λ _. turn) k

forward-notch : (c : ℕ) → c < 2 ^ 16 → forward (notch c) ≡ notch ((c + 1) % 2 ^ 16)
unfolding rotary_transition complete_turn
forward-notch c h = ap notch (bit_and_mask 16 (u32 (c + 1)) ∙ omega arith)

backward-notch : (c : ℕ) → c < 2 ^ 16 → backward (notch c) ≡ notch ((c + (2 ^ 16 - 1)) % 2 ^ 16)
unfolding rotary_transition complete_turn
backward-notch c h = ap notch (bit_and_mask 16 (u32 (c + 0xffff_ffff)) ∙ omega arith)

pub turns-forward : (n c : ℕ) → c < 2 ^ 16 → turns n forward (notch c) ≡ notch ((c + n) % 2 ^ 16)
unfolding for_below
turns-forward zero c h = ap notch (omega arith)
turns-forward (suc n) c h =
    ap forward (turns-forward n c h)
    ∙ forward-notch ((c + n) % 2 ^ 16) (omega arith)
    ∙ ap notch (omega arith)

turns-backward :
    (n c : ℕ) → c < 2 ^ 16 → turns n backward (notch c) ≡ notch ((c + n * (2 ^ 16 - 1)) % 2 ^ 16)
unfolding for_below
turns-backward zero c h = ap notch (omega arith)
turns-backward (suc n) c h =
    ap backward (turns-backward n c h)
    ∙ backward-notch ((c + n * (2 ^ 16 - 1)) % 2 ^ 16) (omega arith)
    ∙ ap notch (omega arith)

-- From a notch, `n` turns forward raise a count of 16 bits by `n`, modulo 65536, and as many turns
-- back restore the knob and its count.
pub turns-turn_back :
    (n c : ℕ)
    → c < 2 ^ 16
    → (turns n forward (notch c) ≡ notch ((c + n) % 2 ^ 16))
      × (turns n backward (turns n forward (notch c)) ≡ notch c)
turns-turn_back n c h = (
  turns-forward n c h,
  ap (turns n backward) (turns-forward n c h)
      ∙ turns-backward n ((c + n) % 2 ^ 16) (omega arith)
      ∙ ap notch (omega arith),
)

-- Any inputs, one after the other.
unfoldable pub follow : List ℕ → Knob → Knob
follow [] k = k
follow (input ∷ inputs) k = follow inputs (rotary_transition k input)

-- Inputs of which none is zero: no notch is reached.
pub data IsAway : List ℕ → Type 0 where
  all_seen : IsAway []
  between :
      {input : ℕ} {inputs : List ℕ} → (input == 0) ≡ false → IsAway inputs → IsAway (input ∷ inputs)

-- The knob after an error, between notches.
lost : ℕ → ℕ → Knob
lost state count = record { state = state; error = true; count = count }

lost_step :
    (state count input : ℕ)
    → (input == 0) ≡ false
    → rotary_transition (lost state count) input ≡ lost input count
unfolding rotary_transition lost
lost_step state count input away =
    if_split (λ (k : Knob). k ≡ lost input count) (input == state) _ _
      (λ here. ap (λ (x : ℕ). lost x count) (ground (arith, here))) (λ _. ground (arith, away))

lost_back :
    (state count : ℕ) → (state == 0) ≡ false → rotary_transition (lost state count) 0 ≡ notch count
unfolding rotary_transition lost
lost_back state count away = ground (arith, away)

follow-lost :
    (inputs : List ℕ) (state count : ℕ)
    → (state == 0) ≡ false
    → IsAway inputs
    → rotary_transition (follow inputs (lost state count)) 0 ≡ notch count
unfolding follow
follow-lost [] state count away all_seen = lost_back state count away
follow-lost (input ∷ inputs) state count away (between out rest) =
    ap (λ (k : Knob). rotary_transition (follow inputs k) 0) (lost_step state count input out)
    ∙ follow-lost inputs input count out rest

-- Once both inputs change between two samples, from a notch, nothing is counted, whatever follows,
-- until the knob is in a notch again, where the error ends with the count that there was.
pub missed_step :
    (inputs : List ℕ) (c : ℕ)
    → IsAway inputs
    → rotary_transition (follow inputs (rotary_transition (notch c) 3)) 0 ≡ notch c
unfolding rotary_transition lost
missed_step inputs c away = follow-lost inputs 3 c refl away

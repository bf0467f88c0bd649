-- ===== src/Timrot/Debounce.antt =====
-- The filter of a rotary input (stmp3770_timer_rotary_debounce of hw/timer/stmp3770_timer.c) over
-- many samples.
use emu_gii.Prelude.{
  ◌⊎◌, inl, inr, if_split, ℕ, zero, suc, ◌<◌, ◌≤◌, ◌^◌, ◌≡◌, refl, sym, ◌∙◌, ap, arith, Bool, true,
  false, not, ltb, if◌then◌else◌, for_below, List, [], ◌∷◌, xor,
}
use emu_gii.Timrot.State.{Filter}
use emu_gii.Timrot.Rotary.{count_sample, rotary_debounce}

-- A filter that rests at a level.
abbrev pub resting : Bool → Filter
resting level = record { stable = level; candidate = level; samples = 0 }

-- `n` samples of one level.
abbrev pub hold : ℕ → Bool → ℕ → Filter → Filter
hold n input required f = for_below n (λ _ g. (rotary_debounce input g required).filter) f

-- Any samples.
unfoldable pub sample_all : List Bool → ℕ → Filter → Filter
sample_all [] required f = f
sample_all (input ∷ inputs) required f =
    sample_all inputs required (rotary_debounce input f required).filter

-- A filter at rest at `level` that has seen `k` samples of the other since.
abbrev undecided : Bool → ℕ → Filter
undecided level zero = resting level
undecided level (suc k) = record { stable = level; candidate = not level; samples = suc k }

at_rest :
    (level : Bool) (k required : ℕ)
    → (rotary_debounce level (undecided level k) required).filter ≡ resting level
unfolding rotary_debounce xor
at_rest true zero required = refl
at_rest false zero required = refl
at_rest true (suc k) required = refl
at_rest false (suc k) required = refl

one_more :
    (level : Bool) (k required : ℕ)
    → suc k < required
    → required < 2 ^ 8
    → (rotary_debounce (not level) (undecided level k) required).filter ≡ undecided level (suc k)
unfolding rotary_debounce count_sample xor
one_more true zero required h w = ground (arith, h)
one_more false zero required h w = ground (arith, h)
one_more true (suc k) required h w = ground (arith, h, w)
one_more false (suc k) required h w = ground (arith, h, w)

last_one :
    (level : Bool) (k : ℕ)
    → suc k < 2 ^ 8
    → (rotary_debounce (not level) (undecided level k) (suc k)).filter ≡ resting (not level)
unfolding rotary_debounce count_sample xor
last_one true zero w = refl
last_one false zero w = refl
last_one true (suc k) w = ground (arith, w)
last_one false (suc k) w = ground (arith, w)

-- What `n` samples of the other level leave.
held : Bool → ℕ → ℕ → Filter
held level required n = if ltb n required then undecided level n else resting (not level)

held_step :
    (level : Bool) (n required : ℕ)
    → required < 2 ^ 8
    → (rotary_debounce (not level) (held level required n) required).filter
      ≡ held level required (suc n)
unfolding held
held_step level n required w = elim (order (suc n) required) [
  | inl before ↦
      ap (λ (f : Filter). (rotary_debounce (not level) f required).filter) (early n (omega arith))
      ∙ one_more level n required before w
      ∙ sym (early (suc n) before)
  | inr (inl now) ↦
      ap (λ (f : Filter). (rotary_debounce (not level) f required).filter) (early n (omega arith))
      ∙ ap (λ (r : ℕ). (rotary_debounce (not level) (undecided level n) r).filter) (sym now)
      ∙ last_one level n (omega arith)
      ∙ sym (late (suc n) (omega arith))
  | inr (inr after) ↦
      ap (λ (f : Filter). (rotary_debounce (not level) f required).filter) (late n (omega arith))
      ∙ at_rest (not level) 0 required
      ∙ sym (late (suc n) (omega arith))
]
  where
    order : (a b : ℕ) → (a < b) ⊎ ((a ≡ b) ⊎ (b < a))
    order a b = omega arith

    early : (m : ℕ) → m < required → held level required m ≡ undecided level m
    early m h = ground (arith, h)

    late : (m : ℕ) → required ≤ m → held level required m ≡ resting (not level)
    late m h = ground (arith, h)

hold-held :
    (level : Bool) (n required : ℕ)
    → 0 < required
    → required < 2 ^ 8
    → hold n (not level) required (resting level) ≡ held level required n
unfolding for_below held
hold-held level zero required h w = ground (arith, h)
hold-held level (suc n) required h w =
    ap (λ (f : Filter). (rotary_debounce (not level) f required).filter)
      (hold-held level n required h w)
    ∙ held_step level n required w

held-stable :
    (level : Bool) (n required : ℕ)
    → (held level required n).stable ≡ (if ltb n required then level else not level)
unfolding held
held-stable level n required =
    if_split (λ (f : Filter). f.stable ≡ (if ltb n required then level else not level))
      (ltb n required) _ _ (λ e. undecided-stable level n ∙ ground (arith, e))
      (λ e. ground (arith, e))
  where
    undecided-stable : (l : Bool) (k : ℕ) → (undecided l k).stable ≡ l
    undecided-stable l zero = refl
    undecided-stable l (suc k) = refl

-- A level that is held becomes the stable one with the sample that completes the required number,
-- and not before: this holds from a filter at rest at the other level, and for every number of
-- samples from 1 to 255 that may be required.
pub hold-stable :
    (level : Bool) (n required : ℕ)
    → 0 < required
    → required < 2 ^ 8
    → (hold n (not level) required (resting level)).stable
      ≡ (if ltb n required then level else not level)
hold-stable level n required h w =
    ap (λ (f : Filter). f.stable) (hold-held level n required h w) ∙ held-stable level n required

-- Samples in which each run of the other level is shorter than required; `k` samples of the first
-- run have been.
pub data IsBounce (required : ℕ) (level : Bool) : ℕ → List Bool → Type 0 where
  ended : {k : ℕ} → IsBounce required level k []
  back :
      {k : ℕ} {inputs : List Bool}
      → IsBounce required level 0 inputs
      → IsBounce required level k (level ∷ inputs)
  away :
      {k : ℕ} {inputs : List Bool}
      → suc k < required
      → IsBounce required level (suc k) inputs
      → IsBounce required level k (not level ∷ inputs)

bounce_from :
    (required : ℕ) (level : Bool) (k : ℕ) (inputs : List Bool)
    → required < 2 ^ 8
    → IsBounce required level k inputs
    → (sample_all inputs required (undecided level k)).stable ≡ level
unfolding sample_all
bounce_from required level zero [] w ended = refl
bounce_from required level (suc k) [] w ended = refl
bounce_from required level k _ w (back {inputs} b) =
    ap (λ (f : Filter). (sample_all inputs required f).stable) (at_rest level k required)
    ∙ bounce_from required level 0 inputs w b
bounce_from required level k _ w (away {inputs} h b) =
    ap (λ (f : Filter). (sample_all inputs required f).stable) (one_more level k required h w)
    ∙ bounce_from required level (suc k) inputs w b

-- A filter at rest does not change its stable level for any samples in which each run of the other
-- level is shorter than the required number, of at most 255.
pub bounce-stable :
    (required : ℕ) (level : Bool) (inputs : List Bool)
    → required < 2 ^ 8
    → IsBounce required level 0 inputs
    → (sample_all inputs required (resting level)).stable ≡ level
bounce-stable required level inputs w b = bounce_from required level 0 inputs w b

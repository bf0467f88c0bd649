-- ===== src/Icoll/Priority.antt =====
-- What `find_candidate` chooses among the 64 sources of hw/intc/stmp3770_icoll.c.
use emu_gii.Prelude.{
  ℕ, suc, ◌≤◌, ◌<◌, ◌≡◌, refl, ◌⊎◌, inl, inr, Bool, true, false, not, ltb, ◌==◌, lt_suc-cases,
  Bool-clash, Bool-cases, if◌then◌else◌, ap, ◌∙◌, ◌&&◌, ◌||◌, Option, none, some, arith, for_below,
  for_below_inv,
}
use emu_gii.Bits.{bit}
use emu_gii.Icoll.State.{Icoll, level_of, enabled, source_routes_to_fiq}
use emu_gii.Icoll.Arbiter.{Candidate, nesting_blocks, keep_better, consider, find_candidate}

-- A source may be delivered as an IRQ: it is requested, enabled, not taken by the FIQ, and above
-- the level in service.
abbrev pub eligible : Icoll → ℕ → Option ℕ → ℕ → Bool
eligible s requests active i =
    not (source_routes_to_fiq s i)
    && bit requests i
    && enabled s i
    && not (nesting_blocks s active (level_of s i))

-- `c` is the best of the eligible sources below `n`: no other has a higher level, and of those
-- of its level none has a higher number.
pub record IsBest (s : Icoll) (requests : ℕ) (active : Option ℕ) (n : ℕ) (c : Candidate)
    : Type 0 where
  pub below : c.vector < n
  pub is_eligible : eligible s requests active c.vector ≡ true
  pub level_read : c.level ≡ level_of s c.vector
  pub beats :
      (j : ℕ)
      → j < n
      → eligible s requests active j ≡ true
      → (level_of s j < c.level) ⊎ ((level_of s j ≡ c.level) × (j ≤ c.vector))

abbrev pub Chooses : Icoll → ℕ → Option ℕ → ℕ → Option Candidate → Type 0
Chooses s requests active n none = (j : ℕ) → j < n → eligible s requests active j ≡ false
Chooses s requests active n (some c) = IsBest s requests active n c

module _ (s : Icoll) (requests : ℕ) (active : Option ℕ) where
  abbrev Passes : ℕ → Type 0
  Passes i = eligible s requests active i ≡ true

  consider-eligible :
      (i : ℕ) (best : Option Candidate)
      → consider s requests active i best
        ≡ (if eligible s requests active i then keep_better i (level_of s i) best else best)
  unfolding consider
  consider-eligible i best = ground arith

  -- A source that is not eligible changes nothing.
  skip_source :
      (i : ℕ) (best : Option Candidate)
      → eligible s requests active i ≡ false
      → Chooses s requests active i best
      → Chooses s requests active (suc i) best
  skip_source i none off none_yet = λ j h. elim (lt_suc-cases h) [
    | inl same ↦ ap (eligible s requests active) same ∙ off
    | inr earlier ↦ none_yet j earlier
  ]
  skip_source i (some c) off b = record {
    below = omega (arith, b.below);
    is_eligible = b.is_eligible;
    level_read = b.level_read;
    beats = λ j h on. elim (lt_suc-cases h) [
      | inl same ↦ Bool-clash on (ap (eligible s requests active) same ∙ off)
      | inr earlier ↦ b.beats j earlier on
    ];
  }

  -- An eligible source replaces the choice if it is at least as high.
  take_source :
      (i : ℕ) (best : Option Candidate)
      → eligible s requests active i ≡ true
      → Chooses s requests active i best
      → Chooses s requests active (suc i) (keep_better i (level_of s i) best)
  unfolding keep_better
  take_source i none on none_yet = record {
    below = omega arith;
    is_eligible = on;
    level_read = refl;
    beats = λ j h passes. elim (lt_suc-cases h) [
      | inl same ↦ inr (ap (level_of s) same, omega arith)
      | inr earlier ↦ Bool-clash passes (none_yet j earlier)
    ];
  }
  take_source i (some c) on b =
      elim (Bool-cases
        (ltb c.level (level_of s i) || (level_of s i == c.level && ltb c.vector i))) [
          | inl better ↦ rw better (record {
            below = omega arith;
            is_eligible = on;
            level_read = refl;
            beats = λ j h passes. elim (lt_suc-cases h) [
              | inl same ↦ inr (ap (level_of s) same, omega arith)
              | inr earlier ↦ ground (arith, b.beats j earlier passes)
            ];
          })
          | inr worse ↦ rw worse (record {
            below = omega (arith, b.below);
            is_eligible = b.is_eligible;
            level_read = b.level_read;
            beats = λ j h passes. elim (lt_suc-cases h) [
              | inl same ↦ ground (arith, ap (level_of s) same)
              | inr earlier ↦ b.beats j earlier passes
            ];
          })
        ]

  -- One round of the loop.
  consider-Chooses :
      (i : ℕ) (best : Option Candidate)
      → Chooses s requests active i best
      → Chooses s requests active (suc i) (consider s requests active i best)
  consider-Chooses i best so_far =
      rw (consider-eligible i best) (elim (Bool-cases (eligible s requests active i)) [
        | inl on ↦ rw on (take_source i best on so_far)
        | inr off ↦ rw off (skip_source i best off so_far)
      ])

  -- After any number of rounds the loop holds the best source seen.
  loop-Chooses :
      (n : ℕ) → Chooses s requests active n (for_below n (consider s requests active) none)
  loop-Chooses n =
      for_below_inv (Chooses s requests active) n (consider s requests active) none
        (λ j h. absurd (omega arith)) (λ i best h. consider-Chooses i best)

  -- For every state, request mask and level in service, `stmp3770_icoll_find_candidate` returns
  -- the eligible source of the highest level, of those the one with the highest number, and
  -- reports none exactly when no source is eligible.
  pub find_candidate-Chooses : Chooses s requests active 64 (find_candidate s requests active)
  unfolding find_candidate
  find_candidate-Chooses = loop-Chooses 64

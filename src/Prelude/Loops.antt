-- ===== src/Prelude/Loops.antt =====
-- The counted loops of the sources, `for (i = 0; i < n; i++)`, with their invariant rules.
use Prim.Native.Nat.{ℕ, zero, suc, ◌<◌}
use mathlib.Core.Path.{◌≡◌, ap, ◌∙◌}
use mathlib.Core.Logic.{inl, inr}
use mathlib.Core.Bool.{Bool, true, false, ◌&&◌, ◌||◌}
use mathlib.Core.Option.{Option, none, some}
use native.Mathlib.Omega.{arith}
use emu_gii.Prelude.Tests.{Bool-cases, if◌then◌else◌, if_split, lt_suc-cases}

-- `body i` runs for i = 0, 1, .., n - 1 in this order.
unfoldable pub for_below {ℓ} : {S : Type ℓ} → ℕ → (ℕ → S → S) → S → S
for_below zero body s = s
for_below (suc n) body s = body n (for_below n body s)

pub for_below_inv {ℓ κ} :
    {S : Type ℓ} (P : ℕ → S → Type κ) (n : ℕ) (body : ℕ → S → S) (s : S)
    → P 0 s
    → ((i : ℕ) (t : S) → i < n → P i t → P (suc i) (body i t))
    → P n (for_below n body s)
unfolding for_below
for_below_inv P zero body s start keep = start
for_below_inv P (suc n) body s start keep =
    keep n (for_below n body s) (omega arith)
      (for_below_inv P n body s start (λ i t h. keep i t (omega arith)))

-- A loop that returns true at the first index that passes, and false after the last.
unfoldable pub any_below : ℕ → (ℕ → Bool) → Bool
any_below zero p = false
any_below (suc n) p = any_below n p || p n

pub any_below_found : (n : ℕ) (p : ℕ → Bool) (i : ℕ) → i < n → p i ≡ true → any_below n p ≡ true
unfolding any_below
any_below_found zero p i h e = absurd (omega arith)
any_below_found (suc n) p i h e = ground (arith, any_below_found n p i)

pub any_below_witness :
    (n : ℕ) (p : ℕ → Bool) → any_below n p ≡ true → (i : ℕ) × (i < n) × (p i ≡ true)
unfolding any_below
any_below_witness zero p e = absurd (elim (no_true e) [ ])
  where
    no_true : false ≡ true → ⊥
    no_true h = cc
any_below_witness (suc n) p e = elim (Bool-cases (any_below n p)) [
  | inl earlier ↦ let (i, below, passes) = any_below_witness n p earlier in (i, omega arith, passes)
  | inr here ↦ (n, omega arith, ground arith)
]

-- A downward search, `for (i = n - 1; i >= 0; i--)`, that stops at the first index that passes.
unfoldable pub highest_below : ℕ → (ℕ → Bool) → Option ℕ
highest_below zero p = none
highest_below (suc n) p = let rest = highest_below n p in if p n then some n else rest

-- What the search returns: the last index that passes, or none.
abbrev pub IsHighest : ℕ → (ℕ → Bool) → Option ℕ → Type 0
IsHighest n p none = (i : ℕ) → i < n → p i ≡ false
IsHighest n p (some i) = (i < n) × (p i ≡ true) × ((j : ℕ) → i < j → j < n → p j ≡ false)

pub highest_below-IsHighest : (n : ℕ) (p : ℕ → Bool) → IsHighest n p (highest_below n p)
unfolding highest_below
highest_below-IsHighest zero p = λ i h. absurd (omega arith)
highest_below-IsHighest (suc n) p =
    if_split (IsHighest (suc n) p) (p n) _ _
      (λ here. (omega arith, here, λ j h k. absurd (omega arith)))
      λ not_here. widen (highest_below n p) (highest_below-IsHighest n p) not_here
  where
    widen : (o : Option ℕ) → IsHighest n p o → p n ≡ false → IsHighest (suc n) p o
    widen none all off =
        λ i h. elim (lt_suc-cases h) [ inl same ↦ ap p same ∙ off | inr earlier ↦ all i earlier ]
    widen (some i) (below, passes, later) off = (
      omega arith,
      passes,
      λ j h k. elim (lt_suc-cases k) [
        | inl same ↦ ap p same ∙ off
        | inr earlier ↦ later j h earlier
      ],
    )

-- Over a small range, a check of every value by evaluation.
unfoldable pub all_below : ℕ → (ℕ → Bool) → Bool
all_below zero p = true
all_below (suc n) p = p n && all_below n p

pub all_below_sound : (n : ℕ) (p : ℕ → Bool) (i : ℕ) → all_below n p ≡ true → i < n → p i ≡ true
unfolding all_below
all_below_sound zero p i h below = absurd (omega arith)
all_below_sound (suc n) p i h below = ground (arith, all_below_sound n p i)

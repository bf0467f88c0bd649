-- ===== src/Prelude/Tests.antt =====
-- The Boolean tests of C on native numbers, `if`, and how `omega` reads them.
use Prim.Native.Nat.{ℕ, suc, ◌<◌, compare, Ordering}
use mathlib.Core.Path.{◌≡◌, refl}
use mathlib.Core.Logic.{◌⊎◌, inl, inr}
use mathlib.Core.Bool.{Bool, true, false}
use mathlib.Core.Option.{Option, none, some}
use native.Mathlib.Omega.{arith}

abbrev pub ltb : ℕ → ℕ → Bool
ltb a b = elim (compare a b) [ Ordering.lt ↦ true | _ ↦ false ]

abbrev pub leb : ℕ → ℕ → Bool
leb a b = elim (compare a b) [ Ordering.gt ↦ false | _ ↦ true ]

infix 50 ◌==◌
abbrev pub ◌==◌ : ℕ → ℕ → Bool
a == b = elim (compare a b) [ Ordering.eq ↦ true | _ ↦ false ]

infix 1 if◌then◌else◌
abbrev pub if◌then◌else◌ {ℓ} : {A : Type ℓ} → Bool → A → A → A
if true then x else y = x
if false then x else y = y

pub ==→eq : (a b : ℕ) → (a == b) ≡ true → a ≡ b
==→eq a b h = ground arith

pub Bool-cases : (b : Bool) → (b ≡ true) ⊎ (b ≡ false)
Bool-cases true = inl refl
Bool-cases false = inr refl

pub Bool-ext : (b c : Bool) → (b ≡ true → c ≡ true) → (c ≡ true → b ≡ true) → b ≡ c
Bool-ext b c f g = ground arith

pub lt_suc-cases : {i j : ℕ} → j < suc i → (j ≡ i) ⊎ (j < i)
lt_suc-cases h = omega arith

pub Bool-clash {ℓ} : {A : Type ℓ} {b : Bool} → b ≡ true → b ≡ false → A
Bool-clash p q = absurd (bad p q)
  where
    bad : {b : Bool} → b ≡ true → b ≡ false → ⊥
    bad p q = cc

-- What holds of both branches, under their tests, holds of an `if`.
pub if_split {ℓ κ} :
    {A : Type ℓ} (P : A → Type κ) (b : Bool) (x y : A)
    → (b ≡ true → P x)
    → (b ≡ false → P y)
    → P (if b then x else y)
if_split P true x y f g = f refl
if_split P false x y f g = g refl

pub Option_split {ℓ} :
    {A : Type 0} {B : Type 0} (P : B → Type ℓ) (o : Option A) (x : B) (f : A → B)
    → P x
    → ((a : A) → o ≡ some a → P (f a))
    → P (elim o [ none ↦ x | some a ↦ f a ])
Option_split P none x f p q = p
Option_split P (some a) x f p q = q a refl

pub Bool_split {ℓ} :
    {B : Type 0} (P : B → Type ℓ) (b : Bool) (x y : B)
    → (b ≡ true → P x)
    → (b ≡ false → P y)
    → P (elim b [ true ↦ x | false ↦ y ])
Bool_split P true x y f g = f refl
Bool_split P false x y f g = g refl

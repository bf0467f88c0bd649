-- ===== src/Prelude/Lists.antt =====
-- C arrays as lists with native indices. A write out of bounds changes nothing.
use Prim.Native.Nat.{ℕ, zero, suc, ◌<◌}
use mathlib.Core.Path.{◌≡◌, refl, sym, subst, ap, ap₂}
use mathlib.Core.Logic.{◌≢◌}
use mathlib.Core.List.{List, [], ◌∷◌}
use native.Mathlib.Omega.{arith}
use emu_gii.Prelude.Tests.{◌==◌, if◌then◌else◌}

module _ {ℓ} {A : Type ℓ} where
  abbrev pub length : List A → ℕ
  length [] = 0
  length (x ∷ xs) = suc (length xs)

  abbrev pub get_or : List A → ℕ → A → A
  get_or [] i d = d
  get_or (x ∷ xs) zero d = x
  get_or (x ∷ xs) (suc i) d = get_or xs i d

  abbrev pub set : List A → ℕ → A → List A
  set [] i v = []
  set (x ∷ xs) zero v = v ∷ xs
  set (x ∷ xs) (suc i) v = x ∷ set xs i v

  abbrev pub take : ℕ → List A → List A
  take zero xs = []
  take (suc n) [] = []
  take (suc n) (x ∷ xs) = x ∷ take n xs

  abbrev pub replicate : ℕ → A → List A
  replicate zero a = []
  replicate (suc n) a = a ∷ replicate n a

  pub length-set : (xs : List A) (i : ℕ) (v : A) → length (set xs i v) ≡ length xs
  length-set [] i v = refl
  length-set (x ∷ xs) zero v = refl
  length-set (x ∷ xs) (suc i) v = ap suc (length-set xs i v)

  pub length-replicate : (n : ℕ) (a : A) → length (replicate n a) ≡ n
  length-replicate zero a = refl
  length-replicate (suc n) a = ap suc (length-replicate n a)

  pub get_or-replicate : (n i : ℕ) (a : A) → get_or (replicate n a) i a ≡ a
  get_or-replicate zero i a = refl
  get_or-replicate (suc n) zero a = refl
  get_or-replicate (suc n) (suc i) a = get_or-replicate n i a

  pub get_or-set_self :
      (xs : List A) (i : ℕ) (v d : A) → i < length xs → get_or (set xs i v) i d ≡ v
  get_or-set_self [] i v d h = absurd (omega arith)
  get_or-set_self (x ∷ xs) zero v d h = refl
  get_or-set_self (x ∷ xs) (suc i) v d h = get_or-set_self xs i v d (omega arith)

  pub get_or-set_ne :
      (xs : List A) (i j : ℕ) (v d : A) → i ≢ j → get_or (set xs i v) j d ≡ get_or xs j d
  get_or-set_ne [] i j v d h = refl
  get_or-set_ne (x ∷ xs) zero zero v d h = absurd (h refl)
  get_or-set_ne (x ∷ xs) zero (suc j) v d h = refl
  get_or-set_ne (x ∷ xs) (suc i) zero v d h = refl
  get_or-set_ne (x ∷ xs) (suc i) (suc j) v d h = get_or-set_ne xs i j v d (λ e. h (ap suc e))

pub get_or_ext {ℓ} :
    {A : Type ℓ} (d : A) (xs ys : List A)
    → length xs ≡ length ys
    → ((i : ℕ) → i < length xs → get_or xs i d ≡ get_or ys i d)
    → xs ≡ ys
get_or_ext d [] [] e h = refl
get_or_ext d [] (y ∷ ys) e h = absurd (omega arith)
get_or_ext d (x ∷ xs) [] e h = absurd (omega arith)
get_or_ext d (x ∷ xs) (y ∷ ys) e h =
    ap₂ ◌∷◌ (h 0 (omega arith))
      (get_or_ext d xs ys (omega arith) (λ i below. h (suc i) (omega arith)))

pub set-set {ℓ} : {A : Type ℓ} (xs : List A) (i : ℕ) (v w : A) → set (set xs i v) i w ≡ set xs i w
set-set [] i v w = refl
set-set (x ∷ xs) zero v w = refl
set-set (x ∷ xs) (suc i) v w = ap (◌∷◌ x) (set-set xs i v w)

-- Writing back what is there changes nothing, past the end too.
pub set-get_or : {A : Type 0} (xs : List A) (i : ℕ) (d : A) → set xs i (get_or xs i d) ≡ xs
set-get_or [] i d = refl
set-get_or (x ∷ xs) zero d = refl
set-get_or (x ∷ xs) (suc i) d = ap (λ (t : List _). x ∷ t) (set-get_or xs i d)

-- Both in one equation, without a condition on the indices.
pub get_or-set :
    {A : Type 0} (xs : List A) (i j : ℕ) (v d : A)
    → i < length xs
    → get_or (set xs i v) j d ≡ (if i == j then v else get_or xs j d)
get_or-set xs i j v d h = ground (arith, get_or-set_self xs i v d, get_or-set_ne xs i j v d)

-- The state's arrays are constrained entry by entry; reads past the end give the default.
abbrev pub AllAt : {A : Type 0} → A → (A → Type 0) → List A → Type 0
AllAt d P xs = (i : ℕ) → P (get_or xs i d)

pub set-AllAt :
    {A : Type 0} (d : A) (P : A → Type 0) (xs : List A) (i : ℕ) (v : A)
    → P v
    → AllAt d P xs
    → AllAt d P (set xs i v)
set-AllAt d P [] i v h all j = all j
set-AllAt d P (x ∷ xs) zero v h all zero = h
set-AllAt d P (x ∷ xs) zero v h all (suc j) = all (suc j)
set-AllAt d P (x ∷ xs) (suc i) v h all zero = all zero
set-AllAt d P (x ∷ xs) (suc i) v h all (suc j) = set-AllAt d P xs i v h (λ k. all (suc k)) j

abbrev pub AllEntries : (ℕ → Type 0) → List ℕ → Type 0
AllEntries = AllAt 0

abbrev pub AllBelow : ℕ → List ℕ → Type 0
AllBelow m = AllEntries (λ x. x < m)

pub set-AllEntries :
    (P : ℕ → Type 0) (xs : List ℕ) (i v : ℕ) → P v → AllEntries P xs → AllEntries P (set xs i v)
set-AllEntries = set-AllAt 0

pub replicate-AllEntries : (P : ℕ → Type 0) (n : ℕ) → P 0 → AllEntries P (replicate n 0)
replicate-AllEntries P n z i = subst P (sym (get_or-replicate n i 0)) z

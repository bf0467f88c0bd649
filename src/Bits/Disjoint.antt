-- ===== src/Bits/Disjoint.antt =====
-- An `|` of fields that do not overlap is a sum.
use emu_gii.Prelude.{ℕ, zero, suc, ◌+◌, ◌*◌, ◌/◌, ◌^◌, ◌<◌, ◌≤◌, bit_or, ◌≡◌, ◌∙◌, ap, ap₂, arith}
use native.Mathlib.Nat.{pow-succ'}
use emu_gii.Bits.Step.{bit_or_step, zero-bit_or}

or_zero_fuel : (n a : ℕ) → a ≤ n → bit_or a 0 ≡ a
or_zero_fuel zero a h =
    let e : a ≡ 0 = omega arith in ap (λ (t : ℕ). bit_or t 0) e ∙ zero-bit_or 0 ∙ omega arith
or_zero_fuel (suc n) a h = omega (arith, bit_or_step a 0, or_zero_fuel n (a / 2))

pub bit_or-zero : (a : ℕ) → bit_or a 0 ≡ a
bit_or-zero a = or_zero_fuel a a (omega arith)

pub bit_or-add : (k a b : ℕ) → b < 2 ^ k → bit_or (a * 2 ^ k) b ≡ a * 2 ^ k + b
bit_or-add zero a b h =
    let none_left : b ≡ 0 = omega arith in
    let whole : a * 2 ^ 0 ≡ a = omega arith in
    ap₂ bit_or whole none_left ∙ bit_or-zero a ∙ omega arith
bit_or-add (suc k) a b h =
    let double : a * 2 ^ suc k ≡ 2 * (a * 2 ^ k) =
      ground (arith, ap (λ (t : ℕ). a * t) (pow-succ' 2 k)) in
    let halves : bit_or (a * 2 ^ suc k / 2) (b / 2) ≡ bit_or (a * 2 ^ k) (b / 2) =
      let half : a * 2 ^ suc k / 2 ≡ a * 2 ^ k = omega (arith, double) in
      ap (λ (t : ℕ). bit_or t (b / 2)) half in
    omega
      (arith, bit_or_step (a * 2 ^ suc k) b, double, halves, bit_or-add k a (b / 2), pow-succ' 2 k)

pub bit_or-add_right : (k a b : ℕ) → b < 2 ^ k → bit_or b (a * 2 ^ k) ≡ b + a * 2 ^ k
bit_or-add_right zero a b h =
    let none_left : b ≡ 0 = omega arith in
    ap (λ (t : ℕ). bit_or t (a * 2 ^ 0)) none_left
    ∙ zero-bit_or (a * 2 ^ 0)
    ∙ omega (arith, none_left)
bit_or-add_right (suc k) a b h =
    let double : a * 2 ^ suc k ≡ 2 * (a * 2 ^ k) =
      ground (arith, ap (λ (t : ℕ). a * t) (pow-succ' 2 k)) in
    let halves : bit_or (b / 2) (a * 2 ^ suc k / 2) ≡ bit_or (b / 2) (a * 2 ^ k) =
      let half : a * 2 ^ suc k / 2 ≡ a * 2 ^ k = omega (arith, double) in
      ap (bit_or (b / 2)) half in
    omega (
      arith,
      bit_or_step b (a * 2 ^ suc k),
      double,
      halves,
      bit_or-add_right k a (b / 2),
      pow-succ' 2 k,
    )

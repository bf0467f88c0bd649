-- ===== src/Bits/Step.antt =====
-- One equation for the lowest digit of each bitwise operation.
use Prim.Native.Nat.{digits, bitwise, differ, bit_and-bitwise, bit_or-bitwise, bit_xor-bitwise}
use emu_gii.Prelude.{
  ℕ, zero, suc, ◌+◌, ◌-◌, ◌*◌, ◌/◌, ◌%◌, ◌≤◌, bit_and, bit_or, bit_xor, min, max, ◌≡◌, refl, sym,
  ◌∙◌, ap, arith,
}

-- An operation `op` that the native recursion on digits defines by `f` on two digits, and by `z`
-- once the first number is used up.
module _ (z : ℕ → ℕ) (f op : ℕ → ℕ → ℕ) (means : (a b : ℕ) → op a b ≡ bitwise z f a b)
    (used_up : (b : ℕ) → z b ≡ z (b / 2) * 2 + f 0 (b % 2)) where
  one_more : (fuel a b : ℕ) → a ≤ fuel → digits z f (suc fuel) a b ≡ digits z f fuel a b
  one_more fuel zero b enough = empty fuel
    where
      empty : (k : ℕ) → digits z f (suc k) 0 b ≡ digits z f k 0 b
      empty zero = refl
      empty (suc k) = refl
  one_more zero (suc a) b enough = absurd (omega arith)
  one_more (suc fuel) (suc a) b enough =
      ap (λ (t : ℕ). t * 2 + f (suc a % 2) (b % 2))
        (one_more fuel (suc a / 2) (b / 2) (omega arith))

  spare_fuel : (k a b : ℕ) → digits z f (k + a) a b ≡ bitwise z f a b
  spare_fuel zero a b = ap (λ (n : ℕ). digits z f n a b) (omega arith)
  spare_fuel (suc k) a b =
      let out : suc k + a ≡ suc (k + a) = omega arith in
      ap (λ (n : ℕ). digits z f n a b) out ∙ one_more (k + a) a b (omega arith) ∙ spare_fuel k a b

  halves : (a b : ℕ) → digits z f a (suc a / 2) b ≡ op (suc a / 2) b
  halves a b =
      let split : a - suc a / 2 + suc a / 2 ≡ a = omega arith in
      ap (λ (n : ℕ). digits z f n (suc a / 2) b) (sym split)
      ∙ spare_fuel (a - suc a / 2) (suc a / 2) b
      ∙ sym (means (suc a / 2) b)

  lowest_digit : (a b : ℕ) → op a b ≡ op (a / 2) (b / 2) * 2 + f (a % 2) (b % 2)
  lowest_digit zero b =
      means 0 b ∙ used_up b ∙ ap (λ (t : ℕ). t * 2 + f 0 (b % 2)) (sym (means 0 (b / 2)))
  lowest_digit (suc a) b =
      means (suc a) b ∙ ap (λ (t : ℕ). t * 2 + f (suc a % 2) (b % 2)) (halves a (b / 2))

pub zero-bit_or : (b : ℕ) → bit_or 0 b ≡ b
zero-bit_or b = bit_or-bitwise 0 b

pub zero-bit_and : (b : ℕ) → bit_and 0 b ≡ 0
zero-bit_and b = bit_and-bitwise 0 b

pub zero-bit_xor : (b : ℕ) → bit_xor 0 b ≡ b
zero-bit_xor b = bit_xor-bitwise 0 b

pub bit_or_step : (a b : ℕ) → bit_or a b ≡ bit_or (a / 2) (b / 2) * 2 + max (a % 2) (b % 2)
bit_or_step = lowest_digit (λ y. y) max bit_or bit_or-bitwise (λ b. omega arith)

pub bit_and_step : (a b : ℕ) → bit_and a b ≡ bit_and (a / 2) (b / 2) * 2 + min (a % 2) (b % 2)
bit_and_step = lowest_digit (λ y. 0) min bit_and bit_and-bitwise (λ b. omega arith)

-- The carry-free sum of two digits, as a remainder.
differ_digits : (x y : ℕ) → x ≤ 1 → y ≤ 1 → differ x y ≡ (x + y) % 2
differ_digits zero y p q = omega arith
differ_digits (suc zero) zero p q = refl
differ_digits (suc zero) (suc y) p q = omega arith
differ_digits (suc (suc x)) y p q = absurd (omega arith)

pub bit_xor_step : (a b : ℕ) → bit_xor a b ≡ bit_xor (a / 2) (b / 2) * 2 + (a + b) % 2
bit_xor_step a b = omega (
  arith,
  lowest_digit (λ y. y) differ bit_xor bit_xor-bitwise (λ b. omega arith) a b,
  differ_digits (a % 2) (b % 2) (omega arith) (omega arith),
)

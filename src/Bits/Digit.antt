-- ===== src/Bits/Digit.antt =====
-- The bit at a position, and what each operation does to it.
use native.Mathlib.Nat.{div-div-eq-div-mul, div-eq_of_lt, pow-succ'}
use emu_gii.Prelude.{
  ℕ, zero, suc, ◌/◌, ◌%◌, ◌^◌, ◌<◌, bit_and, bit_or, bit_xor, ◌≡◌, sym, ◌∙◌, ap, Bool, false, ◌&&◌,
  ◌||◌, xor, ◌==◌, arith,
}
use emu_gii.Bits.Step.{bit_or_step, bit_and_step, bit_xor_step}

-- `(x >> k) & 1`, as a truth value.
unfoldable pub bit : ℕ → ℕ → Bool
bit x k = x / 2 ^ k % 2 == 1

pub bit-zero : (x : ℕ) → bit x 0 ≡ (x % 2 == 1)
unfolding bit
bit-zero x = ap (λ (t : ℕ). t % 2 == 1) (omega arith)

pub bit-suc : (x k : ℕ) → bit x (suc k) ≡ bit (x / 2) k
unfolding bit
bit-suc x k =
    ap (λ (t : ℕ). t % 2 == 1)
      (ap (λ (t : ℕ). x / t) (pow-succ' 2 k) ∙ sym (div-div-eq-div-mul x 2 (2 ^ k)))

-- Each operation works on every position by itself.
pub bit-bit_or : (a b k : ℕ) → bit (bit_or a b) k ≡ (bit a k || bit b k)
bit-bit_or a b zero =
    rw (bit-zero (bit_or a b), bit-zero a, bit-zero b) (ground (arith, bit_or_step a b))
bit-bit_or a b (suc k) =
    rw (bit-suc (bit_or a b) k, bit-suc a k, bit-suc b k)
      (ap (λ (t : ℕ). bit t k) (omega (arith, bit_or_step a b)) ∙ bit-bit_or (a / 2) (b / 2) k)

pub bit-bit_and : (a b k : ℕ) → bit (bit_and a b) k ≡ (bit a k && bit b k)
bit-bit_and a b zero =
    rw (bit-zero (bit_and a b), bit-zero a, bit-zero b) (ground (arith, bit_and_step a b))
bit-bit_and a b (suc k) =
    rw (bit-suc (bit_and a b) k, bit-suc a k, bit-suc b k)
      (ap (λ (t : ℕ). bit t k) (omega (arith, bit_and_step a b)) ∙ bit-bit_and (a / 2) (b / 2) k)

pub bit-bit_xor : (a b k : ℕ) → bit (bit_xor a b) k ≡ xor (bit a k) (bit b k)
unfolding xor
bit-bit_xor a b zero =
    rw (bit-zero (bit_xor a b), bit-zero a, bit-zero b) (ground (arith, bit_xor_step a b))
bit-bit_xor a b (suc k) =
    rw (bit-suc (bit_xor a b) k, bit-suc a k, bit-suc b k)
      (ap (λ (t : ℕ). bit t k) (omega (arith, bit_xor_step a b)) ∙ bit-bit_xor (a / 2) (b / 2) k)

-- Nothing is set above the width of a number.
pub bit_above : (k x : ℕ) → x < 2 ^ k → bit x k ≡ false
unfolding bit
bit_above k x h = ap (λ (t : ℕ). t % 2 == 1) (div-eq_of_lt h)

-- Two numbers with the same bits are equal.
pub bit_ext : (w a b : ℕ) → a < 2 ^ w → b < 2 ^ w → ((k : ℕ) → k < w → bit a k ≡ bit b k) → a ≡ b
bit_ext zero a b p q same = omega arith
bit_ext (suc w) a b p q same = omega (
  arith,
  lowest,
  bit_ext w (a / 2) (b / 2) (omega (arith, pow-succ' 2 w)) (omega (arith, pow-succ' 2 w))
      (λ k h. sym (bit-suc a k) ∙ same (suc k) (omega arith) ∙ bit-suc b k),
)
  where
    lowest : a % 2 ≡ b % 2
    lowest = ground (arith, bit-zero a, bit-zero b, same 0)

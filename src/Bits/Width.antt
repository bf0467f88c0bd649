-- ===== src/Bits/Width.antt =====
-- Bounds of the operations by powers of two, masks of low bits, and the complement of a word.
use native.Mathlib.Nat.{
  pow-succ', pow-le-pow_right, one-le-pow, mod-eq_of_lt, mod-lt, add-mul-mod_self_right,
  div-add-mod,
}
use emu_gii.Prelude.{
  ℕ, zero, suc, ◌+◌, ◌-◌, ◌*◌, ◌/◌, ◌%◌, ◌^◌, ◌≤◌, ◌<◌, bit_and, bit_or, bit_xor, ◌≡◌, ◌∙◌, ap, not,
  arith,
}
use emu_gii.Bits.Step.{
  bit_or_step, bit_and_step, bit_xor_step, zero-bit_or, zero-bit_and, zero-bit_xor,
}
use emu_gii.Bits.Digit.{bit, bit-zero, bit-suc}

pub bit_or-lt : (w a b : ℕ) → a < 2 ^ w → b < 2 ^ w → bit_or a b < 2 ^ w
bit_or-lt zero zero b p q = rw (zero-bit_or b) q
bit_or-lt zero (suc a) b p q = absurd (omega arith)
bit_or-lt (suc w) a b p q = omega (
  arith,
  pow-succ' 2 w,
  bit_or_step a b,
  bit_or-lt w (a / 2) (b / 2) (omega (arith, pow-succ' 2 w)) (omega (arith, pow-succ' 2 w)),
)

pub bit_xor-lt : (w a b : ℕ) → a < 2 ^ w → b < 2 ^ w → bit_xor a b < 2 ^ w
bit_xor-lt zero zero b p q = rw (zero-bit_xor b) q
bit_xor-lt zero (suc a) b p q = absurd (omega arith)
bit_xor-lt (suc w) a b p q = omega (
  arith,
  pow-succ' 2 w,
  bit_xor_step a b,
  bit_xor-lt w (a / 2) (b / 2) (omega (arith, pow-succ' 2 w)) (omega (arith, pow-succ' 2 w)),
)

-- The fuel `n` only measures the recursion.
and_le_left_fuel : (n a b : ℕ) → a ≤ n → bit_and a b ≤ a
and_le_left_fuel n zero b p = omega (arith, zero-bit_and b)
and_le_left_fuel zero (suc a) b p = absurd (omega arith)
and_le_left_fuel (suc n) (suc a) b p =
    omega (arith, bit_and_step (suc a) b, and_le_left_fuel n (suc a / 2) (b / 2) (omega arith))

pub bit_and-le_left : (a b : ℕ) → bit_and a b ≤ a
bit_and-le_left a b = and_le_left_fuel a a b (omega arith)

and_le_right_fuel : (n a b : ℕ) → a ≤ n → bit_and a b ≤ b
and_le_right_fuel n zero b p = omega (arith, zero-bit_and b)
and_le_right_fuel zero (suc a) b p = absurd (omega arith)
and_le_right_fuel (suc n) (suc a) b p =
    omega (arith, bit_and_step (suc a) b, and_le_right_fuel n (suc a / 2) (b / 2) (omega arith))

pub bit_and-le_right : (a b : ℕ) → bit_and a b ≤ b
bit_and-le_right a b = and_le_right_fuel a a b (omega arith)

-- The remainder by a doubled modulus, digit by digit.
mod_double : (x p : ℕ) → 0 < p → x % (2 * p) ≡ 2 * (x / 2 % p) + x % 2
mod_double x p h =
    ap (λ (t : ℕ). t % (2 * p)) split
    ∙ add-mul-mod_self_right (2 * (x / 2 % p) + x % 2) (x / 2 / p) (2 * p)
    ∙ mod-eq_of_lt fits
  where
    split : x ≡ 2 * (x / 2 % p) + x % 2 + x / 2 / p * (2 * p)
    split = omega (arith, div-add-mod (x / 2) p)

    fits : 2 * (x / 2 % p) + x % 2 < 2 * p
    fits = omega (arith, mod-lt (x / 2) h)

pub mod_pow_suc : (w x : ℕ) → x % 2 ^ suc w ≡ 2 * (x / 2 % 2 ^ w) + x % 2
mod_pow_suc w x = rw (pow-succ' 2 w) (mod_double x (2 ^ w) (one-le-pow w 2 (omega arith)))

pub bit_and_mask : (w x : ℕ) → bit_and x (2 ^ w - 1) ≡ x % 2 ^ w
bit_and_mask zero x = omega (arith, bit_and-le_right x 0)
bit_and_mask (suc w) x = omega (
  arith,
  pow-succ' 2 w,
  one-le-pow w 2,
  mod_pow_suc w x,
  bit_and_step x (2 ^ suc w - 1),
  bit_and_mask w (x / 2),
  ap (λ (t : ℕ). bit_and (x / 2) t) (half_ones w),
)
  where
    half_ones : (w : ℕ) → (2 ^ suc w - 1) / 2 ≡ 2 ^ w - 1
    half_ones w = omega (arith, pow-succ' 2 w, one-le-pow w 2)

-- `~x` of a word of `w` bits.
unfoldable pub complement : ℕ → ℕ → ℕ
complement w x = 2 ^ w - 1 - x % 2 ^ w

pub complement-zero : (w : ℕ) → complement w 0 ≡ 2 ^ w - 1
unfolding complement
complement-zero w = omega arith

pub complement-lt : (w x : ℕ) → complement w x < 2 ^ w
unfolding complement
complement-lt w x = omega (arith, one-le-pow w 2)

complement-half : (w x : ℕ) → complement (suc w) x / 2 ≡ complement w (x / 2)
unfolding complement
complement-half w x = omega (arith, pow-succ' 2 w, one-le-pow w 2, mod_pow_suc w x)

complement-odd : (w x : ℕ) → complement (suc w) x % 2 ≡ 1 - x % 2
unfolding complement
complement-odd w x =
    omega (arith, pow-succ' 2 w, one-le-pow w 2, mod_pow_suc w x, mod-lt (x / 2) {m = 2 ^ w})

pub bit-complement : (w x k : ℕ) → k < w → bit (complement w x) k ≡ not (bit x k)
bit-complement zero x k h = absurd (omega arith)
bit-complement (suc w) x zero h =
    rw (bit-zero (complement (suc w) x), bit-zero x) (ground (arith, complement-odd w x))
bit-complement (suc w) x (suc k) h =
    rw (bit-suc (complement (suc w) x) k, bit-suc x k)
      (rw (complement-half w x) (bit-complement w (x / 2) k (omega arith)))

pub bit_and-lt : (w a m : ℕ) → m < 2 ^ w → bit_and a m < 2 ^ w
bit_and-lt w a m h = omega (arith, bit_and-le_right a m)

pub pow-lt : (i w : ℕ) → i < w → 2 ^ i < 2 ^ w
pow-lt i w h = omega (
  arith,
  pow-succ' 2 i,
  one-le-pow i 2,
  pow-le-pow_right {n = 2} (omega arith) {i = suc i} {j = w} h,
)

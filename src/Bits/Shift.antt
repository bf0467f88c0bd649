-- ===== src/Bits/Shift.antt =====
-- The bits of shifted, cut and one-bit numbers.
use native.Mathlib.Nat.{pow-succ', pow-le-pow_right, one-le-pow, div-div-eq-div-mul}
use emu_gii.Prelude.{
  ℕ, zero, suc, ◌+◌, ◌-◌, ◌*◌, ◌/◌, ◌%◌, ◌^◌, ◌<◌, bit_and, ◌≡◌, sym, ◌∙◌, ap, ap₂, true, false,
  ◌&&◌, not, ltb, leb, ◌==◌, ◌≢◌, Bool-cases, inl, inr, arith,
}
use emu_gii.Bits.Digit.{bit, bit-zero, bit-suc, bit-bit_and, bit_ext, bit_above}
use emu_gii.Bits.Width.{mod_pow_suc, bit_and-le_right, bit-complement, complement-zero}

pub bit_of_zero : (k : ℕ) → bit 0 k ≡ false
bit_of_zero zero = bit-zero 0
bit_of_zero (suc k) = bit-suc 0 k ∙ bit_of_zero k

-- `1 << j` has the one bit j.
pub bit-pow : (j k : ℕ) → bit (2 ^ j) k ≡ (j == k)
bit-pow zero zero = bit-zero 1
bit-pow zero (suc k) = bit-suc 1 k ∙ bit_of_zero k ∙ ground arith
bit-pow (suc j) zero = bit-zero (2 ^ suc j) ∙ ground (arith, pow-succ' 2 j)
bit-pow (suc j) (suc k) =
    bit-suc (2 ^ suc j) k
    ∙ ap (λ (t : ℕ). bit t k) (omega (arith, pow-succ' 2 j))
    ∙ bit-pow j k
    ∙ ground arith

pub bit-shl : (x j k : ℕ) → bit (x * 2 ^ j) k ≡ (leb j k && bit x (k - j))
bit-shl x zero k = ground (arith, ap (λ (t : ℕ). bit t k) (x_one x), ap (bit x) (sub_zero k))
  where
    x_one : (x : ℕ) → x * 2 ^ 0 ≡ x
    x_one x = omega arith

    sub_zero : (k : ℕ) → k - 0 ≡ k
    sub_zero k = omega arith
bit-shl x (suc j) zero =
    bit-zero (x * 2 ^ suc j) ∙ ground (arith, ap (λ (t : ℕ). x * t) (pow-succ' 2 j))
bit-shl x (suc j) (suc k) =
    bit-suc (x * 2 ^ suc j) k
    ∙ ap (λ (t : ℕ). bit t k) (omega (arith, ap (λ (t : ℕ). x * t) (pow-succ' 2 j)))
    ∙ bit-shl x j k
    ∙ ground (arith, ap (bit x) (sub_suc k j))
  where
    sub_suc : (k j : ℕ) → suc k - suc j ≡ k - j
    sub_suc k j = omega arith

pub bit-mod : (w x k : ℕ) → bit (x % 2 ^ w) k ≡ (ltb k w && bit x k)
bit-mod zero x k = ap (λ (t : ℕ). bit t k) (omega arith) ∙ bit_of_zero k ∙ ground arith
bit-mod (suc w) x zero = bit-zero (x % 2 ^ suc w) ∙ ground (arith, mod_pow_suc w x, bit-zero x)
bit-mod (suc w) x (suc k) =
    bit-suc (x % 2 ^ suc w) k
    ∙ ap (λ (t : ℕ). bit t k) (omega (arith, mod_pow_suc w x))
    ∙ bit-mod w (x / 2) k
    ∙ ground (arith, bit-suc x k)

pub bit-shr : (x j k : ℕ) → bit (x / 2 ^ j) k ≡ bit x (j + k)
bit-shr x zero k = ap₂ bit (omega arith) (omega arith)
bit-shr x (suc j) k =
    ap (λ (t : ℕ). bit t k)
      (ap (λ (t : ℕ). x / t) (pow-succ' 2 j) ∙ sym (div-div-eq-div-mul x 2 (2 ^ j)))
    ∙ bit-shr (x / 2) j k
    ∙ sym (bit-suc x (j + k))
    ∙ ap (bit x) (omega arith)

-- `(1 << w) - 1` has the bits below w.
pub bit-ones : (w k : ℕ) → bit (2 ^ w - 1) k ≡ ltb k w
bit-ones w k = elim (Bool-cases (ltb k w)) [
  | inl below ↦ rw below (inside below)
  | inr above ↦ rw above (bit_above k (2 ^ w - 1) (outside above))
]
  where
    inside : ltb k w ≡ true → bit (2 ^ w - 1) k ≡ true
    inside below =
        ap (λ (t : ℕ). bit t k) (sym (complement-zero w))
        ∙ bit-complement w 0 k (ground arith)
        ∙ ap not (bit_of_zero k)

    outside : ltb k w ≡ false → 2 ^ w - 1 < 2 ^ k
    outside above = omega (
      arith,
      one-le-pow w 2,
      pow-le-pow_right {n = 2} (omega arith) {i = w} {j = k} (ground arith),
    )

-- A test by a one-bit mask is the bit.
and_pow_bits : (x k j : ℕ) → bit (bit_and x (2 ^ k)) j ≡ (bit x j && (k == j))
and_pow_bits x k j = bit-bit_and x (2 ^ k) j ∙ ap (λ b. bit x j && b) (bit-pow k j)

and_pow_on : (x k : ℕ) → bit x k ≡ true → bit_and x (2 ^ k) ≢ 0
and_pow_on x k on none_left =
    ground (arith, and_pow_bits x k k, ap (λ (t : ℕ). bit t k) none_left, bit_of_zero k)

and_pow_off : (x k : ℕ) → bit x k ≡ false → bit_and x (2 ^ k) ≡ 0
and_pow_off x k off =
    bit_ext (suc k) (bit_and x (2 ^ k)) 0 fits (omega (arith, one-le-pow (suc k) 2))
      (λ j h. ground (arith, and_pow_bits x k j, bit_of_zero j))
  where
    fits : bit_and x (2 ^ k) < 2 ^ suc k
    fits = omega (arith, bit_and-le_right x (2 ^ k), pow-succ' 2 k, one-le-pow k 2)

pub bit_and-pow : (x k : ℕ) → (bit_and x (2 ^ k) == 0) ≡ not (bit x k)
bit_and-pow x k = ground (arith, and_pow_on x k, and_pow_off x k)

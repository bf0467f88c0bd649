-- ===== src/Dcp/Inverse.antt =====
-- Words and rows of four bytes carry the same information (hw/misc/stmp3770_dcp.c).
use emu_gii.Prelude.{
  ℕ, ◌+◌, ◌*◌, ◌^◌, ◌<◌, ◌≡◌, refl, sym, ◌∙◌, ap, arith, bit_and, bit_or, bit_xor, xor,
}
use emu_gii.Bits.{zero-bit_or, bit_and_mask, bit_or-add, bit_ext, bit_xor-lt, bit-bit_xor}
use emu_gii.Reg.{◌<<<◌, ◌>>>◌}
use emu_gii.Dcp.Words.{Row, row_of, word_of}
use emu_gii.Dcp.Cipher.{IsBytes}

pub row_of-IsBytes : (v : ℕ) → IsBytes (row_of v)
unfolding row_of
row_of-IsBytes v = record {
  b0 = omega (arith, bit_and_mask 8 (v >>> 24));
  b1 = omega (arith, bit_and_mask 8 (v >>> 16));
  b2 = omega (arith, bit_and_mask 8 (v >>> 8));
  b3 = omega (arith, bit_and_mask 8 (v >>> 0));
}

or_field : (k a x b : ℕ) → x ≡ a * 2 ^ k → b < 2 ^ k → bit_or x b ≡ x + b
or_field k a x b e h =
    ap (λ (t : ℕ). bit_or t b) e ∙ bit_or-add k a b h ∙ ap (λ (t : ℕ). t + b) (sym e)

-- The fields of a word do not overlap.
word_of-sum :
    (r : Row) → IsBytes r → word_of r ≡ r.b0 * 2 ^ 24 + r.b1 * 2 ^ 16 + r.b2 * 2 ^ 8 + r.b3
unfolding word_of
word_of-sum r v =
    let x1 = r.b0 * 2 ^ 24 in
    let x2 = x1 + r.b1 * 2 ^ 16 in
    let x3 = x2 + r.b2 * 2 ^ 8 in
    let first : bit_or (bit_or 0 (r.b0 <<< 24)) (r.b1 <<< 16) ≡ x2 =
      ap (λ (t : ℕ). bit_or t (r.b1 <<< 16)) (zero-bit_or x1)
      ∙ or_field 24 r.b0 x1 (r.b1 <<< 16) refl (omega (arith, v.b1)) in
    let second : bit_or (bit_or (bit_or 0 (r.b0 <<< 24)) (r.b1 <<< 16)) (r.b2 <<< 8) ≡ x3 =
      ap (λ (t : ℕ). bit_or t (r.b2 <<< 8)) first
      ∙ or_field 16 (r.b0 * 2 ^ 8 + r.b1) x2 (r.b2 <<< 8) (omega arith) (omega (arith, v.b2)) in
    ap (λ (t : ℕ). bit_or t (r.b3 <<< 0)) second
    ∙ or_field 8 (r.b0 * 2 ^ 16 + r.b1 * 2 ^ 8 + r.b2) x3 (r.b3 <<< 0) (omega arith)
        (omega (arith, v.b3))
    ∙ omega arith

pub word_of-lt : (r : Row) → IsBytes r → word_of r < 2 ^ 32
word_of-lt r v = omega (arith, word_of-sum r v, v.b0, v.b1, v.b2, v.b3)

pub word_of-row_of : (v : ℕ) → v < 2 ^ 32 → word_of (row_of v) ≡ v
unfolding row_of
word_of-row_of v h = omega (
  arith,
  word_of-sum (row_of v) (row_of-IsBytes v),
  bit_and_mask 8 (v >>> 24),
  bit_and_mask 8 (v >>> 16),
  bit_and_mask 8 (v >>> 8),
  bit_and_mask 8 (v >>> 0),
)

pub row_of-word_of : (r : Row) → IsBytes r → row_of (word_of r) ≡ r
unfolding row_of
row_of-word_of r v =
    let sum = word_of-sum r v in
    let e0 : bit_and (word_of r >>> 24) 0xff ≡ r.b0 =
      omega (arith, sum, bit_and_mask 8 (word_of r >>> 24), v.b0, v.b1, v.b2, v.b3) in
    let e1 : bit_and (word_of r >>> 16) 0xff ≡ r.b1 =
      omega (arith, sum, bit_and_mask 8 (word_of r >>> 16), v.b0, v.b1, v.b2, v.b3) in
    let e2 : bit_and (word_of r >>> 8) 0xff ≡ r.b2 =
      omega (arith, sum, bit_and_mask 8 (word_of r >>> 8), v.b0, v.b1, v.b2, v.b3) in
    let e3 : bit_and (word_of r >>> 0) 0xff ≡ r.b3 =
      omega (arith, sum, bit_and_mask 8 (word_of r >>> 0), v.b0, v.b1, v.b2, v.b3) in
    λ i. record { b0 = e0 i; b1 = e1 i; b2 = e2 i; b3 = e3 i }

pub xor_xor : (a b : ℕ) → a < 2 ^ 8 → b < 2 ^ 8 → bit_xor (bit_xor a b) b ≡ a
unfolding xor
xor_xor a b p q =
    bit_ext 8 (bit_xor (bit_xor a b) b) a (bit_xor-lt 8 (bit_xor a b) b (bit_xor-lt 8 a b p q) q) p
      (λ k below. ground (arith, bit-bit_xor (bit_xor a b) b k, bit-bit_xor a b k))

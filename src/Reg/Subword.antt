-- ===== src/Reg/Subword.antt =====
-- Reads narrower than a word.
use emu_gii.Prelude.{ℕ, ◌+◌, ◌-◌, ◌*◌, ◌/◌, ◌%◌, ◌≤◌, ◌<◌, ◌^◌, bit_and, ◌≡◌, ◌∙◌, ap, ap₂, arith}
use emu_gii.Bits.{bit_and_mask}
use emu_gii.Reg.Defs.{size_mask, byte_shift, read_subword}

pub byte_shift-eq : (offset : ℕ) → byte_shift offset ≡ offset % 4 * 8
byte_shift-eq offset = ap (λ (t : ℕ). t * 8) (bit_and_mask 2 offset)

size_mask-small : (size : ℕ) → size < 4 → size_mask size ≡ 2 ^ (size * 8) - 1
unfolding size_mask
size_mask-small size h = ground arith

-- A read of one, two or three bytes is the field of that many bits.
pub read_subword-field :
    (value offset size : ℕ)
    → size < 4
    → read_subword value offset size ≡ value / 2 ^ (offset % 4 * 8) % 2 ^ (size * 8)
unfolding read_subword
read_subword-field value offset size h =
    ap₂ bit_and (ap (λ (t : ℕ). value / 2 ^ t) (byte_shift-eq offset)) (size_mask-small size h)
    ∙ bit_and_mask (size * 8) (value / 2 ^ (offset % 4 * 8))

-- A read of a whole word at a word's address gives the word.
pub read_subword_word :
    (value offset size : ℕ)
    → value < 2 ^ 32
    → offset % 4 ≡ 0
    → 4 ≤ size
    → read_subword value offset size ≡ value
unfolding read_subword
read_subword_word value offset size fits aligned wide =
    ap₂ bit_and
      (ap (λ (t : ℕ). value / 2 ^ t) (byte_shift-eq offset ∙ ap (λ (t : ℕ). t * 8) aligned))
      (size_mask-wide size wide)
    ∙ bit_and_mask 32 (value / 1)
    ∙ omega arith
  where
    size_mask-wide : (size : ℕ) → 4 ≤ size → size_mask size ≡ 2 ^ 32 - 1
    size_mask-wide size h = unfold size_mask in ground arith

-- The four bytes of a 32-bit word, read one at a time from a word's address on, make up the word.
pub read_subword_bytes :
    (value base : ℕ)
    → value < 2 ^ 32
    → base % 4 ≡ 0
    → read_subword value base 1
        + read_subword value (base + 1) 1 * 2 ^ 8
        + read_subword value (base + 2) 1 * 2 ^ 16
        + read_subword value (base + 3) 1 * 2 ^ 24
      ≡ value
read_subword_bytes value base fits aligned =
    omega (arith, lowest, byte_at 1 (omega arith), byte_at 2 (omega arith), byte_at 3 (omega arith))
  where
    byte_at : (i : ℕ) → i < 4 → read_subword value (base + i) 1 ≡ value / 2 ^ (i * 8) % 2 ^ 8
    byte_at i h =
        read_subword-field value (base + i) 1 (omega arith)
        ∙ ap (λ (t : ℕ). value / 2 ^ (t * 8) % 2 ^ 8) (omega arith)

    lowest : read_subword value base 1 ≡ value / 2 ^ (0 * 8) % 2 ^ 8
    lowest = ap (λ (t : ℕ). read_subword value t 1) (omega arith) ∙ byte_at 0 (omega arith)

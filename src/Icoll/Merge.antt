-- ===== src/Icoll/Merge.antt =====
-- Writes narrower than a word, of hw/intc/stmp3770_icoll.c.
use emu_gii.Prelude.{
  ℕ, ◌+◌, ◌-◌, ◌*◌, ◌/◌, ◌%◌, ◌^◌, ◌<◌, ◌≤◌, ◌≡◌, sym, ◌∙◌, ap, Bool, ◌&&◌, ltb, leb, if◌then◌else◌,
  bit_and, arith,
}
use emu_gii.Bits.{bit, bit-bit_or, bit-bit_and, bit-complement, bit-shl, bit-shr, bit-mod, bit-ones}
use emu_gii.Reg.{u32, not32, ◌<<<◌, byte_shift, byte_shift-eq, read_subword, read_subword-field}
use emu_gii.Icoll.Bus.{merge_subword}

-- Bit `k` lies in the field of an access.
abbrev pub in_field : ℕ → ℕ → ℕ → Bool
in_field offset size k = leb (byte_shift offset) k && ltb (k - byte_shift offset) (size * 8)

field_mask :
    (sh w k : ℕ) → k < 32 → bit (u32 ((1 <<< w - 1) <<< sh)) k ≡ (leb sh k && ltb (k - sh) w)
field_mask sh w k h =
    ap (λ (t : ℕ). bit (u32 ((t - 1) <<< sh)) k) one_mul
    ∙ ground
        (arith, bit-mod 32 ((2 ^ w - 1) <<< sh) k, bit-shl (2 ^ w - 1) sh k, bit-ones w (k - sh))
  where
    one_mul : 1 * 2 ^ w ≡ 2 ^ w
    one_mul = omega arith

-- The merge, before it is cut to the writable bits: the field takes the value's bits, and the other
-- bits stay.
pub bit-merge_subword :
    (target value offset size k : ℕ)
    → k < 32
    → bit (merge_subword target value offset size) k
      ≡ (if in_field offset size k then bit value (k - byte_shift offset) else bit target k)
unfolding merge_subword
bit-merge_subword target value offset size k h =
    let sh = byte_shift offset in
    let mask = u32 ((1 <<< (size * 8) - 1) <<< sh) in
    ground (
      arith,
      bit-bit_or (bit_and target (not32 mask)) (bit_and (value <<< sh) mask) k,
      bit-bit_and target (not32 mask) k,
      bit-bit_and (value <<< sh) mask k,
      bit-complement 32 mask k h,
      field_mask sh (size * 8) k h,
      bit-shl value sh k,
    )

pub bit-read_subword :
    (value offset size k : ℕ)
    → size < 4
    → bit (read_subword value offset size) k
      ≡ (ltb k (size * 8) && bit value (byte_shift offset + k))
bit-read_subword value offset size k h =
    ap (λ (t : ℕ). bit t k)
      (read_subword-field value offset size h
        ∙ ap (λ (t : ℕ). value / 2 ^ t % 2 ^ (size * 8)) (sym (byte_shift-eq offset)))
    ∙ bit-mod (size * 8) (value / 2 ^ byte_shift offset) k
    ∙ ap (λ b. ltb k (size * 8) && b) (bit-shr value (byte_shift offset) k)

-- An access of fewer than four bytes that stays inside the word.
abbrev pub Fits : ℕ → ℕ → Type 0
Fits offset size = (size < 4) × (offset % 4 + size ≤ 4)

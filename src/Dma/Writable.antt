-- ===== src/Dma/Writable.antt =====
-- What a masked write leaves in a register, and in CTRL0 (hw/dma/stmp3770_dma.c).
use emu_gii.Prelude.{
  ℕ, ◌+◌, ◌-◌, ◌^◌, ◌<◌, ◌≤◌, ◌≡◌, inl, inr, refl, sym, ◌∙◌, bit_and, Bool, true, false, not,
  all_below, all_below_sound, Bool-cases, ltb, arith, if_split,
}
use emu_gii.Bits.{
  bit, bit-bit_or, bit-bit_and, bit-complement, bit_or-lt, bit_and-le_left, bit_and-le_right,
  bit-pow,
}
use emu_gii.Reg.{u32, not32, apply_sct, ◌<<<◌, has, has-bit}
use emu_gii.Dma.State.{ctrl0_sftrst, ctrl0_clkgate}
use emu_gii.Dma.Bus.{Access, full_mask, masked_write, ctrl0_writable, tie_clkgate}
use emu_gii.Dma.Invariant.{Ctrl0Fits}

pub masked_write-lt :
    (w writable reg : ℕ) (a : Access)
    → reg < 2 ^ w
    → writable < 2 ^ w
    → masked_write writable a reg < 2 ^ w
unfolding masked_write
masked_write-lt w writable reg a p q =
    let wmask = bit_and writable (full_mask a) in
    let cur = apply_sct a.sct reg (u32 (a.value <<< a.shift)) in
    bit_or-lt w (bit_and reg (not32 wmask)) (bit_and cur wmask)
      (omega (arith, bit_and-le_left reg (not32 wmask)))
      (omega (arith, bit_and-le_right cur wmask, bit_and-le_left writable (full_mask a)))

-- A bit that the mask does not let through keeps its value.
pub bit-masked_write :
    (writable reg k : ℕ) (a : Access)
    → k < 32
    → bit writable k ≡ false
    → bit (masked_write writable a reg) k ≡ bit reg k
unfolding masked_write
bit-masked_write writable reg k a h off =
    let wmask = bit_and writable (full_mask a) in
    let cur = apply_sct a.sct reg (u32 (a.value <<< a.shift)) in
    ground (
      arith,
      off,
      bit-bit_or (bit_and reg (not32 wmask)) (bit_and cur wmask) k,
      bit-bit_and reg (not32 wmask) k,
      bit-bit_and cur wmask k,
      bit-bit_and writable (full_mask a) k,
      bit-complement 32 wmask k h,
    )

tied : (x : ℕ) → bit (tie_clkgate x) 31 ≡ bit (tie_clkgate x) 30
unfolding tie_clkgate
tied x =
    if_split (λ (y : ℕ). bit y 31 ≡ bit y 30) (has x ctrl0_sftrst) _ _
      (λ on. ground (
        arith,
        on,
        has-bit x 31,
        bit-bit_or x ctrl0_clkgate 31,
        bit-bit_or x ctrl0_clkgate 30,
        bit-pow 30 30,
        bit-pow 30 31,
      ))
      (λ off. ground (
        arith,
        off,
        has-bit x 31,
        bit-bit_and x (not32 ctrl0_clkgate) 31,
        bit-bit_and x (not32 ctrl0_clkgate) 30,
        bit-complement 32 ctrl0_clkgate 31 (omega arith),
        bit-complement 32 ctrl0_clkgate 30 (omega arith),
        bit-pow 30 30,
        bit-pow 30 31,
      ))

bit-tie_clkgate : (x k : ℕ) → k < 30 → bit (tie_clkgate x) k ≡ bit x k
unfolding tie_clkgate
bit-tie_clkgate x k h =
    if_split (λ (y : ℕ). bit y k ≡ bit x k) (has x ctrl0_sftrst) _ _
      (λ _. ground (arith, bit-bit_or x ctrl0_clkgate k, bit-pow 30 k))
      (λ _. ground (
        arith,
        bit-bit_and x (not32 ctrl0_clkgate) k,
        bit-complement 32 ctrl0_clkgate k (omega arith),
        bit-pow 30 k,
      ))

tie_clkgate-lt : (x : ℕ) → x < 2 ^ 32 → tie_clkgate x < 2 ^ 32
unfolding tie_clkgate
tie_clkgate-lt x h =
    if_split (λ (y : ℕ). y < 2 ^ 32) (has x ctrl0_sftrst) _ _
      (λ _. bit_or-lt 32 x ctrl0_clkgate h (omega arith))
      (λ _. omega (arith, bit_and-le_left x (not32 ctrl0_clkgate)))

-- A run of zero bits of a constant, from a table.
pub clear_between :
    (x lo n k : ℕ)
    → all_below n (λ j. not (bit x (j + lo))) ≡ true
    → lo ≤ k
    → k < n + lo
    → bit x k ≡ false
clear_between x lo n k table low high =
    let there : k - lo + lo ≡ k = omega arith in
    ground
      (arith, there, all_below_sound n (λ j. not (bit x (j + lo))) (k - lo) table (omega arith))

apbx_table : all_below 6 (λ j. not (bit 0xc0ff_00ff (j + 24))) ≡ true
unfolding all_below bit
apbx_table = refl

apbh_table : all_below 6 (λ j. not (bit 0xc0ff_ffff (j + 24))) ≡ true
unfolding all_below bit
apbh_table = refl

reset_table : all_below 8 (λ j. bit 0x00ff_0000 (j + 16)) ≡ true
unfolding all_below bit
reset_table = refl

above_table : all_below 8 (λ j. not (bit 0x00ff_0000 (j + 24))) ≡ true
unfolding all_below bit
above_table = refl

-- The reserved bits 29:24 of CTRL0 are not writable, on either bus.
reserved : (is_apbx : Bool) (k : ℕ) → 24 ≤ k → k < 30 → bit (ctrl0_writable is_apbx) k ≡ false
unfolding ctrl0_writable
reserved true k low high = clear_between 0xc0ff_00ff 24 6 k apbx_table low high
reserved false k low high = clear_between 0xc0ff_ffff 24 6 k apbh_table low high

writable_fits : (is_apbx : Bool) → ctrl0_writable is_apbx < 2 ^ 32
unfolding ctrl0_writable
writable_fits true = omega arith
writable_fits false = omega arith

-- The channel reset bits read as zero once they have acted.
reset_bits : (x k : ℕ) → 16 ≤ k → k < 24 → bit (bit_and x (not32 0x00ff_0000)) k ≡ false
reset_bits x k low high =
    let there : k - 16 + 16 ≡ k = omega arith in
    ground (
      arith,
      bit-bit_and x (not32 0x00ff_0000) k,
      bit-complement 32 0x00ff_0000 k (omega arith),
      there,
      all_below_sound 8 (λ j. bit 0x00ff_0000 (j + 16)) (k - 16) reset_table (omega arith),
    )

-- CTRL0 after a write, for every access and every value.
pub written_ctrl0-Fits :
    (is_apbx : Bool) (a : Access) (old : ℕ)
    → Ctrl0Fits old
    → Ctrl0Fits
        (bit_and (tie_clkgate (masked_write (ctrl0_writable is_apbx) a old)) (not32 0x00ff_0000))
written_ctrl0-Fits is_apbx a old (gated, clear, fits) = (top, low, bounded)
  where
    written : ℕ
    written = masked_write (ctrl0_writable is_apbx) a old

    kept :
        (k : ℕ)
        → k < 32
        → bit 0x00ff_0000 k ≡ false
        → bit (bit_and (tie_clkgate written) (not32 0x00ff_0000)) k ≡ bit (tie_clkgate written) k
    kept k h off = ground (
      arith,
      off,
      bit-bit_and (tie_clkgate written) (not32 0x00ff_0000) k,
      bit-complement 32 0x00ff_0000 k h,
    )

    outside : (k : ℕ) → 24 ≤ k → k < 32 → bit 0x00ff_0000 k ≡ false
    outside k from h = clear_between 0x00ff_0000 24 8 k above_table from h

    top :
        bit (bit_and (tie_clkgate written) (not32 0x00ff_0000)) 31
        ≡ bit (bit_and (tie_clkgate written) (not32 0x00ff_0000)) 30
    top =
        kept 31 (omega arith) (outside 31 (omega arith) (omega arith))
        ∙ tied written
        ∙ sym (kept 30 (omega arith) (outside 30 (omega arith) (omega arith)))

    low :
        (k : ℕ)
        → 16 ≤ k
        → k < 30
        → bit (bit_and (tie_clkgate written) (not32 0x00ff_0000)) k ≡ false
    low k from h = elim (Bool-cases (ltb k 24)) [
      | inl small ↦ reset_bits (tie_clkgate written) k from (ground arith)
      | inr not_small ↦
          let large : 24 ≤ k = ground arith in
          kept k (omega arith) (outside k large (omega arith))
          ∙ bit-tie_clkgate written k h
          ∙ bit-masked_write (ctrl0_writable is_apbx) old k a (omega arith)
              (reserved is_apbx k large h)
          ∙ clear k from h
    ]

    bounded : bit_and (tie_clkgate written) (not32 0x00ff_0000) < 2 ^ 32
    bounded = omega (
      arith,
      bit_and-le_left (tie_clkgate written) (not32 0x00ff_0000),
      tie_clkgate-lt written
          (masked_write-lt 32 (ctrl0_writable is_apbx) old a fits (writable_fits is_apbx)),
    )

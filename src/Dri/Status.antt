-- ===== src/Dri/Status.antt =====
-- The interrupt status of hw/misc/stmp3770_dri.c: what a write of CTRL does to it.
use emu_gii.Prelude.{
  ℕ, ◌<◌, ◌≤◌, ◌≡◌, refl, ◌∙◌, arith, bit_and, Bool, true, false, not, ◌&&◌, ◌||◌, ◌==◌,
  if◌then◌else◌, if_split, all_below, all_below_sound,
}
use emu_gii.Bits.{bit, bit-bit_or, bit-bit_and, bit-complement}
use emu_gii.Reg.{not32, Alias, alias_exact}
use emu_gii.Dri.Regs.{
  Dri, dri_ctrl_writable_mask, ctrl_irq_status_bits, writable_bits, dri_apply_sct, written_ctrl,
  update_irq, reset_registers, write_ctrl,
}

-- What each alias makes of a status bit, from the bit of CTRL and the bit of the value.
abbrev pub status_after : ℕ → Bool → Bool → Bool
status_after low old value =
    if low == 4 then old || value else if low == 8 then old && not value else old

-- The offset of each alias.
pub data IsAliasOffset : ℕ → Type 0 where
  plain : IsAliasOffset 0
  set : IsAliasOffset 4
  clr : IsAliasOffset 8
  tog : IsAliasOffset 12

status_place : (k : ℕ) → k < 4 → (k == 0 || (bit 0xE k && bit 0xe61f_8e0f k)) ≡ true
unfolding all_below bit
status_place k h = all_below_sound 4 (λ j. j == 0 || (bit 0xE j && bit 0xe61f_8e0f j)) k refl h

bit-written :
    (old val offset k : ℕ)
    → IsAliasOffset offset
    → k < 32
    → bit ctrl_irq_status_bits k ≡ true
    → bit dri_ctrl_writable_mask k ≡ true
    → bit (written_ctrl old offset val) k ≡ status_after offset (bit old k) (bit val k)
unfolding written_ctrl dri_apply_sct writable_bits alias_exact
bit-written old val _ k plain h e m =
    bit-bit_or _ (bit_and old 0xE) k
    ∙ ground (
      arith,
      bit-bit_and old 0xE k,
      e,
      bit-complement 32 0xE k h,
      bit-bit_and (dri_apply_sct old val dri_ctrl_writable_mask Alias.plain) (not32 0xE) k,
    )
bit-written old val _ k set h e m =
    bit-bit_or (bit_and old (not32 dri_ctrl_writable_mask)) _ k
    ∙ ground (
      arith,
      m,
      bit-complement 32 dri_ctrl_writable_mask k h,
      bit-bit_and old (not32 dri_ctrl_writable_mask) k,
      bit-bit_or (bit_and old dri_ctrl_writable_mask) (bit_and val dri_ctrl_writable_mask) k,
      bit-bit_and old dri_ctrl_writable_mask k,
      bit-bit_and val dri_ctrl_writable_mask k,
    )
bit-written old val _ k clr h e m =
    bit-bit_or (bit_and old (not32 dri_ctrl_writable_mask)) _ k
    ∙ ground (
      arith,
      m,
      bit-complement 32 dri_ctrl_writable_mask k h,
      bit-bit_and old (not32 dri_ctrl_writable_mask) k,
      bit-bit_and (bit_and old dri_ctrl_writable_mask) (not32 (bit_and val dri_ctrl_writable_mask))
          k,
      bit-complement 32 (bit_and val dri_ctrl_writable_mask) k h,
      bit-bit_and old dri_ctrl_writable_mask k,
      bit-bit_and val dri_ctrl_writable_mask k,
    )
bit-written old val _ k tog h e m =
    bit-bit_or _ (bit_and old 0xE) k
    ∙ ground (
      arith,
      bit-bit_and old 0xE k,
      e,
      bit-complement 32 0xE k h,
      bit-bit_and (dri_apply_sct old val dri_ctrl_writable_mask Alias.tog) (not32 0xE) k,
    )

-- A write of CTRL that leaves SFTRST clear keeps each of the three status bits if it is plain or
-- toggles, clears those that the value names through the CLR alias, and sets those that it names
-- through the SET alias.
pub write_ctrl-status :
    (s : Dri) (offset val k : ℕ)
    → IsAliasOffset offset
    → 1 ≤ k
    → k < 4
    → bit (written_ctrl s.ctrl offset val) 31 ≡ false
    → bit (write_ctrl s offset val).ctrl k ≡ status_after offset (bit s.ctrl k) (bit val k)
unfolding write_ctrl reset_registers update_irq
write_ctrl-status s offset val k named low high running =
    if_split (λ (t : Dri). bit t.ctrl k ≡ status_after offset (bit s.ctrl k) (bit val k))
      (bit (written_ctrl s.ctrl offset val) 31) _ _
      (λ resets. absurd (ground (arith, resets, running)))
      (λ _.
        bit-written s.ctrl val offset k named (omega arith)
          (ground (arith, status_place k high, low)) (ground (arith, status_place k high, low)))

-- ===== src/Ocotp/Aliases.antt =====
-- The aliases of CTRL in the one-time programmable memory (hw/misc/stmp3770_ocotp.c).
use emu_gii.Prelude.{
  ℕ, if◌then◌else◌, ◌<◌, ◌≡◌, refl, ◌∙◌, subst, true, false, bit_and, bit_or, arith, ◌==◌,
  Bool-cases, inl, inr, if_split,
}
use emu_gii.Bits.{bit, bit-bit_and, bit-bit_or, bit-complement, bit-pow}
use emu_gii.Reg.{not32, u32}
use emu_gii.Ocotp.Fuses.{Ocotp, ctrl_rw_mask, ctrl_error, maybe_finish_reload}
use emu_gii.Ocotp.Bus.{write, write_ctrl, store_ctrl, next_ctrl, finish_requested, ctrl_clr}

rw_9 : bit ctrl_rw_mask 9 ≡ false
unfolding bit
rw_9 = refl

error_not_rw : (k : ℕ) → bit ctrl_rw_mask k ≡ true → bit ctrl_error k ≡ false
error_not_rw k h = elim (Bool-cases (9 == k)) [
  | inl at ↦
      let here : k ≡ 9 = ground (arith, at) in
      let no_such : bit ctrl_rw_mask 9 ≡ true =
        subst (λ (j : ℕ). bit ctrl_rw_mask j ≡ true) here h in
      absurd (ground (arith, no_such, rw_9))
  | inr apart ↦ bit-pow 9 k ∙ apart
]

-- A bit that can be written takes its value from the local word.
bit-next_ctrl :
    (ctrl w k : ℕ) → k < 32 → bit ctrl_rw_mask k ≡ true → bit (next_ctrl ctrl w) k ≡ bit w k
unfolding next_ctrl
bit-next_ctrl ctrl w k h rw = ground (
  arith,
  bit-bit_or
      (bit_or (bit_and ctrl (not32 (bit_or ctrl_rw_mask ctrl_error))) (bit_and w ctrl_rw_mask))
      (bit_and ctrl ctrl_error) k,
  bit-bit_or (bit_and ctrl (not32 (bit_or ctrl_rw_mask ctrl_error))) (bit_and w ctrl_rw_mask) k,
  bit-bit_and ctrl (not32 (bit_or ctrl_rw_mask ctrl_error)) k,
  bit-complement 32 (bit_or ctrl_rw_mask ctrl_error) k h,
  bit-bit_or ctrl_rw_mask ctrl_error k,
  bit-bit_and w ctrl_rw_mask k,
  bit-bit_and ctrl ctrl_error k,
  error_not_rw k rw,
)

bit-ctrl_clr : (ctrl v k : ℕ) → k < 32 → bit ctrl_rw_mask k ≡ true → bit (ctrl_clr ctrl v) k ≡ false
unfolding ctrl_clr
bit-ctrl_clr ctrl v k h rw = ground (
  arith,
  bit-bit_and (bit_and ctrl (not32 ctrl_rw_mask)) (not32 (bit_and v ctrl_rw_mask)) k,
  bit-bit_and ctrl (not32 ctrl_rw_mask) k,
  bit-complement 32 ctrl_rw_mask k h,
)

rw_13 : bit ctrl_rw_mask 13 ≡ true
unfolding bit
rw_13 = refl

-- A write to the CLR alias of CTRL clears every bit of CTRL that can be written, the key, the
-- address and the open bank too, whichever bits the value names.
pub bit-write_clr :
    (s : Ocotp) (value k : ℕ)
    → k < 32
    → bit ctrl_rw_mask k ≡ true
    → bit (write s 0x008 value 4).ctrl k ≡ false
unfolding write write_ctrl store_ctrl finish_requested
bit-write_clr s value k h rw =
    let ctrl = if bit (u32 value) 9 then bit_and s.ctrl (not32 ctrl_error) else s.ctrl in
    let w = ctrl_clr s.ctrl (u32 value) in
    let next = record s { ctrl = next_ctrl ctrl w } in
    let cleared : (j : ℕ) → j < 32 → bit ctrl_rw_mask j ≡ true → bit next.ctrl j ≡ false =
      λ j below at. bit-next_ctrl ctrl w j below at ∙ bit-ctrl_clr s.ctrl (u32 value) j below at in
    if_split (λ t. bit t.ctrl k ≡ false) (bit next.ctrl 13) (maybe_finish_reload next) next
      (λ asked. absurd (ground (arith, asked, cleared 13 (omega arith) rw_13)))
      (λ _. cleared k h rw)

-- ===== src/Ocotp/Bus.antt =====
-- The memory-mapped registers of hw/misc/stmp3770_ocotp.c.
use emu_gii.Prelude.{
  ℕ, ◌+◌, ◌-◌, ◌*◌, ◌/◌, ◌%◌, ◌^◌, bit_and, bit_or, bit_xor, Bool, not, ◌&&◌, ◌||◌, leb, ltb, ◌==◌,
  if◌then◌else◌, get_or, replicate,
}
use emu_gii.Bits.{bit}
use emu_gii.Reg.{u32, not32, base_of}
use emu_gii.Ocotp.Fuses.{
  Ocotp, unlock_mask, unlock_value, ctrl_error, ctrl_plain_mask, ctrl_rw_mask, set_error,
  reload_shadows, maybe_finish_reload, program_word,
}

pub record Reading : Type 0 where
  pub value : ℕ
  pub state : Ocotp

-- A word of a bank that must be open: the state and `BAD_DATA` if it is not, or if it is locked.
unfoldable pub read_bank : Ocotp → Bool → ℕ → Reading
unfolding set_error
read_bank s locked word =
    if not (bit s.ctrl 12) || locked
    then record { value = 0xbada_bada; state = set_error s }
    else record { value = word; state = s }

abbrev pub in_bank : ℕ → ℕ → ℕ → Bool
in_bank first count offset = leb first offset && ltb offset (first + count * 0x10)

unfoldable pub read : Ocotp → ℕ → ℕ → Reading
unfolding read_bank
read s offset size =
    if not (size == 4)
    then record { value = 0; state = s }
    else if offset == 0x000
    then record { value = bit_and s.ctrl (not32 (2 ^ 8)); state = s }
    else if offset == 0x010
    then record { value = s.data_word; state = s }
    else if offset == 0x110
    then record { value = s.custcap; state = s }
    else if offset == 0x120
    then record { value = s.lock; state = s }
    else if offset == 0x220
    then record { value = s.version; state = s }
    else if in_bank 0x020 4 offset
    then read_bank s (not (0 == 0)) (get_or s.cust ((offset - 0x020) / 0x10) 0)
    else if in_bank 0x060 4 offset
    then read_bank s (bit s.lock 4) (get_or s.crypto ((offset - 0x060) / 0x10) 0)
    else if in_bank 0x1A0 3 offset
    then read_bank s (not (0 == 0)) (get_or s.rom ((offset - 0x1A0) / 0x10) 0)
    else record { value = 0; state = s }

unfoldable pub has_key : ℕ → Bool
has_key value = bit_and value unlock_mask == unlock_value

-- The local `writable` of the write to CTRL, which starts without the bits that can be written.
unfoldable pub ctrl_set : ℕ → ℕ → ℕ
unfolding has_key
ctrl_set ctrl value =
    let writable = bit_or (bit_and ctrl (not32 ctrl_rw_mask)) (bit_and value ctrl_plain_mask) in
    if has_key value then bit_or writable unlock_value else writable

unfoldable pub ctrl_clr : ℕ → ℕ → ℕ
ctrl_clr ctrl value =
    bit_and (bit_and ctrl (not32 ctrl_rw_mask)) (not32 (bit_and value ctrl_rw_mask))

unfoldable pub ctrl_tog : ℕ → ℕ → ℕ
ctrl_tog ctrl value = bit_xor (bit_and ctrl (not32 ctrl_rw_mask)) (bit_and value ctrl_plain_mask)

-- `(s->ctrl & ~(CTRL_RW_MASK | CTRL_ERROR)) | (writable & CTRL_RW_MASK) | (s->ctrl & CTRL_ERROR)`
unfoldable pub next_ctrl : ℕ → ℕ → ℕ
next_ctrl ctrl writable =
    bit_or
      (bit_or (bit_and ctrl (not32 (bit_or ctrl_rw_mask ctrl_error)))
        (bit_and writable ctrl_rw_mask))
      (bit_and ctrl ctrl_error)

-- `if (reload_requested) ..`
unfoldable pub finish_requested : Ocotp → Ocotp
unfolding maybe_finish_reload
finish_requested s = if bit s.ctrl 13 then maybe_finish_reload s else s

-- From `s->ctrl = ..` to the end of the write to CTRL.
unfoldable pub store_ctrl : Ocotp → ℕ → Ocotp
unfolding next_ctrl finish_requested
store_ctrl s writable = finish_requested (record s { ctrl = next_ctrl s.ctrl writable })

unfoldable pub write_ctrl : Ocotp → ℕ → ℕ → Ocotp
unfolding ctrl_set ctrl_clr ctrl_tog store_ctrl
write_ctrl s sct value =
    let cleared = if bit value 9 then bit_and s.ctrl (not32 ctrl_error) else s.ctrl in
    if sct == 0x0
    then store_ctrl s (ctrl_set s.ctrl value)
    else if sct == 0x4
    then store_ctrl s (ctrl_set s.ctrl value)
    else if sct == 0x8
    then store_ctrl (record s { ctrl = cleared }) (ctrl_clr s.ctrl value)
    else if sct == 0xC
    then store_ctrl s (ctrl_tog s.ctrl value)
    else s

-- `if (!(s->ctrl & CTRL_ERROR)) ..`: a word that was programmed takes the key away.
unfoldable pub drop_key : Ocotp → Ocotp
drop_key s =
    if not (bit s.ctrl 9) then record s { ctrl = bit_and s.ctrl (not32 unlock_mask) } else s

-- DATA programs the word that CTRL addresses, under the key and without an error.
unfoldable pub write_data : Ocotp → ℕ → Ocotp
unfolding has_key program_word drop_key
write_data s value =
    let t = record s { data_word = value } in
    if bit s.ctrl 9 || not (has_key s.ctrl)
    then t
    else drop_key (program_word t (bit_and s.ctrl 0x1f) value)

-- The shadow of CUSTCAP, unless bit 7 of LOCK is set.
unfoldable pub write_custcap : Ocotp → ℕ → ℕ → Ocotp
unfolding set_error
write_custcap s sct value =
    if not (sct == 0x0)
    then s
    else if bit s.lock 7
    then set_error s
    else record s { custcap = value }

unfoldable pub write : Ocotp → ℕ → ℕ → ℕ → Ocotp
unfolding write_ctrl write_data write_custcap
write s offset value size =
    let sct = offset % 16 in
    let reg = base_of offset in
    if not (size == 4)
    then s
    else if reg == 0x000
    then write_ctrl s sct (u32 value)
    else if reg == 0x010
    then (if sct == 0x0 then write_data s (u32 value) else s)
    else if reg == 0x110
    then write_custcap s sct (u32 value)
    else s

unfoldable pub reset : Ocotp → Ocotp
unfolding reload_shadows
reset s = reload_shadows (record {
  ctrl = 0;
  data_word = 0;
  cust = replicate 4 0;
  crypto = replicate 4 0;
  otp_custcap = 0;
  custcap = 0;
  otp_lock = 0;
  lock = 0;
  rom = replicate 3 0;
  version = 0x0101_0000;
})

-- ===== src/Ocotp/Fuses.antt =====
-- The state of the one-time programmable memory and its programming (hw/misc/stmp3770_ocotp.c).
use emu_gii.Prelude.{
  ℕ, ◌-◌, ◌^◌, bit_and, bit_or, not, ◌&&◌, List, leb, ◌==◌, if◌then◌else◌, get_or, set,
}
use emu_gii.Bits.{bit}
use emu_gii.Reg.{not32}

pub record Ocotp : Type 0 where
  pub ctrl : ℕ
  pub data_word : ℕ
  pub cust : List ℕ
  pub crypto : List ℕ
  pub otp_custcap : ℕ
  pub custcap : ℕ
  pub otp_lock : ℕ
  pub lock : ℕ
  pub rom : List ℕ
  pub version : ℕ

abbrev pub unlock_mask : ℕ
unlock_mask = 0xffff_0000

abbrev pub unlock_value : ℕ
unlock_value = 0x3e77_0000

abbrev pub ctrl_error : ℕ
ctrl_error = 2 ^ 9

-- RELOAD_SHADOWS, RD_BANK_OPEN and ADDR
abbrev pub ctrl_plain_mask : ℕ
ctrl_plain_mask = 0x301f

-- Those and the key.
abbrev pub ctrl_rw_mask : ℕ
ctrl_rw_mask = 0xffff_301f

unfoldable pub set_error : Ocotp → Ocotp
set_error s = record s { ctrl = bit_or s.ctrl ctrl_error }

unfoldable pub reload_shadows : Ocotp → Ocotp
reload_shadows s = record s { custcap = s.otp_custcap; lock = s.otp_lock }

unfoldable pub maybe_finish_reload : Ocotp → Ocotp
unfolding reload_shadows
maybe_finish_reload s =
    let t = reload_shadows s in
    if bit s.ctrl 13 && not (bit s.ctrl 12)
    then record t { ctrl = bit_and t.ctrl (not32 (2 ^ 13)) }
    else s

-- `if (!stmp3770_ocotp_program_locked(s, lock_bit)) ..`; bit `n` of LOCK is the lock.
unfoldable pub unless_locked : Ocotp → ℕ → Ocotp → Ocotp
unfolding set_error
unless_locked s n programmed = if bit s.lock n then set_error s else programmed

-- `words[i] |= value`
abbrev pub blow : List ℕ → ℕ → ℕ → List ℕ
blow words i value = set words i (bit_or (get_or words i 0) value)

-- `stmp3770_ocotp_program_word`
unfoldable pub program_word : Ocotp → ℕ → ℕ → Ocotp
unfolding unless_locked set_error
program_word s addr value =
    if leb addr 0x03
    then unless_locked s addr (record s { cust = blow s.cust addr value })
    else if leb addr 0x07
    then unless_locked s 4 (record s { crypto = blow s.crypto (addr - 0x04) value })
    else if addr == 0x0f
    then unless_locked s 9 (record s { otp_custcap = bit_or s.otp_custcap value })
    else if addr == 0x10
    then record s { otp_lock = bit_or s.otp_lock value }
    else if leb 0x18 addr && leb addr 0x1a
    then record s { rom = blow s.rom (addr - 0x18) value }
    else set_error s

-- ===== src/Tests/Fuses.antt =====
-- The one-time programmable memory at concrete accesses.
use emu_gii.Prelude.{◌≡◌, refl, true, false, ◌+◌, ◌*◌, arith, ℕ, List, [], ◌∷◌, replicate}
use emu_gii.Bits.{bit}
use emu_gii.Ocotp.Fuses.{Ocotp, program_word, ctrl_rw_mask}
use emu_gii.Ocotp.Bus.{read, write, reset}
use emu_gii.Ocotp.Blown.{IsGrown, write-IsGrown, write_all, write_all-sealed}
use emu_gii.Ocotp.Aliases.{bit-write_clr}

abbrev blank : Ocotp
blank = record {
  ctrl = 0;
  data_word = 0;
  cust = replicate 4 0;
  crypto = 0x1111 ∷ 0x2222 ∷ 0x3333 ∷ 0x4444 ∷ [];
  otp_custcap = 0;
  custcap = 0;
  otp_lock = 0x10;
  lock = 0x10;
  rom = replicate 3 0;
  version = 0x0101_0000;
}

-- Word 2 of the customer's after a reset.
programs : (program_word (reset blank) 2 0xAA).cust ≡ 0 ∷ 0 ∷ 0xAA ∷ 0 ∷ []
unfolding program_word reset bit
programs = refl

-- Word 2 is addressed, under the key.
abbrev unlocked : Ocotp
unlocked = record blank { ctrl = 0x3E77_0002 }

write-IsGrown_example : IsGrown unlocked (write unlocked 0x010 0xAA 4)
write-IsGrown_example = write-IsGrown unlocked 0x010 0xAA 4

key_locked : bit 0x10 4 ≡ true
unfolding bit
key_locked = refl

abbrev attack : List (ℕ × ℕ × ℕ)
attack = (0x000, 0x3E77_0004, 4) ∷ (0x010, 0xFFFF, 4) ∷ (0x008, 0x200, 4) ∷ (0x000, 0x3000, 4) ∷ []

write_all-sealed_example :
    ((write_all blank attack).crypto ≡ blank.crypto)
    × ((read (write_all blank attack) (0x060 + 2 * 0x10) 4).value ≡ 0xbada_bada)
write_all-sealed_example = write_all-sealed blank attack 2 key_locked key_locked (omega arith)

open_bank : bit ctrl_rw_mask 12 ≡ true
unfolding bit
open_bank = refl

-- Clearing the address of an open bank closes it.
bit-write_clr_example : bit (write (record blank { ctrl = 0x1003 }) 0x008 0x3 4).ctrl 12 ≡ false
bit-write_clr_example =
    bit-write_clr (record blank { ctrl = 0x1003 }) 0x3 12 (omega arith) open_bank

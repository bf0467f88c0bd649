-- ===== src/Tests/Supply.antt =====
-- The power supply's registers at concrete accesses.
use emu_gii.Prelude.{◌≡◌, refl, false, arith, replicate}
use emu_gii.Bits.{bit}
use emu_gii.Reg.{u32, alias_exact, sct_bit}
use emu_gii.Power.Regs.{Power, unlocks, read, write, reset}
use emu_gii.Power.Access.{IsValid, reset-IsValid, write-IsValid, write-locked, bit-read-write}

abbrev after_reset : Power
after_reset = reset (record { regs = replicate 18 0 })

-- RESET_SET with the key.
write-IsValid_example : IsValid (write after_reset 0xE4 0x3E77_0001)
write-IsValid_example = write-IsValid after_reset 0xE4 0x3E77_0001 (reset-IsValid _)

no_key : unlocks (u32 0x3E76_0003) ≡ false
unfolding unlocks
no_key = refl

write-locked_example : write after_reset 0xE4 0x3E76_0003 ≡ after_reset
write-locked_example = write-locked after_reset 0xE4 0x3E76_0003 refl no_key

bit-read-write_example :
    bit (read (write after_reset 0x48 0x10) 0x48) 4
    ≡ sct_bit (alias_exact 0x48) (bit (read after_reset 0x48) 4) (bit 0x10 4)
bit-read-write_example =
    bit-read-write after_reset 0x48 0x10 4 ((reset-IsValid _).size) (omega arith)
      (λ e. omega (arith, e)) (omega arith)

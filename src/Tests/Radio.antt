-- ===== src/Tests/Radio.antt =====
-- The digital radio interface at a concrete state.
use emu_gii.Prelude.{◌≡◌, refl, false, arith}
use emu_gii.Reg.{alias_exact}
use emu_gii.Bits.{bit, complement}
use emu_gii.Dri.Regs.{Dri, written_ctrl, write_ctrl}
use emu_gii.Dri.Status.{IsAliasOffset, status_after, write_ctrl-status}

-- The inputs run, and an attention interrupt is pending.
abbrev receiving : Dri
receiving = record { ctrl = 0x2001_0003; timing = 0x0008_0010; debug0 = 0; debug1 = 0; irq = false }

still_runs : bit (written_ctrl receiving.ctrl 4 0x8) 31 ≡ false
unfolding bit complement written_ctrl alias_exact
still_runs = refl

-- Through the SET alias the CPU raises the overflow status.
write_ctrl-status_example :
    bit (write_ctrl receiving 4 0x8).ctrl 3 ≡ status_after 4 (bit receiving.ctrl 3) (bit 0x8 3)
write_ctrl-status_example =
    write_ctrl-status receiving 4 0x8 3 IsAliasOffset.set (omega arith) (omega arith) still_runs

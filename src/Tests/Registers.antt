-- ===== src/Tests/Registers.antt =====
-- The register conventions at concrete values.
use emu_gii.Prelude.{◌+◌, ◌*◌, ◌^◌, ◌≡◌, refl, arith}
use emu_gii.Reg.{read_subword, read_subword_bytes}

read_subword_bytes_example :
    read_subword 0x1234_5678 0x40 1
      + read_subword 0x1234_5678 0x41 1 * 2 ^ 8
      + read_subword 0x1234_5678 0x42 1 * 2 ^ 16
      + read_subword 0x1234_5678 0x43 1 * 2 ^ 24
    ≡ 0x1234_5678
read_subword_bytes_example = read_subword_bytes 0x1234_5678 0x40 (omega arith) refl

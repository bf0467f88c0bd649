-- ===== src/Gpmi/Protocol.antt =====
-- Programming and reading a row through the chip's commands (hw/block/stmp3770_gpmi.c).
use emu_gii.Prelude.{
  ℕ, ◌+◌, ◌*◌, ◌/◌, ◌%◌, ◌^◌, ◌<◌, ◌≡◌, refl, ◌∙◌, ap, ap₂, arith, min, bit_and, bit_or, false,
  ◌==◌, ◌&&◌, if◌then◌else◌, for_below,
}
use emu_gii.Bits.{bit_and_mask, zero-bit_or, bit_or-add_right}
use emu_gii.Reg.{u32, ◌<<<◌, ◌>>>◌}
use emu_gii.Gpmi.Nand.{Nand, NandState, Backend}
use emu_gii.Gpmi.Chip.{
  cmd_read_1st, cmd_read_2nd, cmd_program_1st, cmd_program_2nd, is_cmd_state, is_first_command,
  address_read, confirm_program, confirm_read, confirm_erase, cmd_erase_1st, cmd_erase_2nd,
  nand_command, second_command, nand_address, address_program, write_data_byte, command_byte,
}

-- The address cycles of a row, from its first column: two column bytes and two row bytes.
unfoldable pub joined : ℕ → ℕ → ℕ
joined r0 r1 =
    bit_or
      (bit_or (bit_or (bit_or 0 (u32 (0 <<< (0 * 8)))) (u32 (0 <<< (1 * 8))))
        (u32 (r0 <<< (2 * 8))))
      (u32 (r1 <<< (3 * 8)))

pub row-joined :
    (row : ℕ) → row < 2 ^ 16 → bit_and (joined (row % 256) (row / 256) >>> 16) 0xFFFF ≡ row
unfolding joined
row-joined row h =
    let low : u32 ((row % 256) <<< 16) ≡ row % 256 * 2 ^ 16 = omega arith in
    let high : u32 ((row / 256) <<< 24) ≡ row / 256 * 2 ^ 24 = omega arith in
    let first : bit_or 0 (u32 ((row % 256) <<< 16)) ≡ row % 256 * 2 ^ 16 =
      zero-bit_or (u32 ((row % 256) <<< 16)) ∙ low in
    let second : joined (row % 256) (row / 256) ≡ row % 256 * 2 ^ 16 + row / 256 * 2 ^ 24 =
      ap₂ bit_or first high ∙ bit_or-add_right 24 (row / 256) (row % 256 * 2 ^ 16) (omega arith) in
    bit_and_mask 16 (joined (row % 256) (row / 256) >>> 16) ∙ omega (arith, second)

module _ {D : Type 0} where
  abbrev pub send_address : Nand D → ℕ → Nand D
  send_address s row =
      nand_address (nand_address (nand_address (nand_address s 0) 0) (row % 256)) (row / 256)

  -- PROGRAM_1ST, the address, `n` bytes of data for which the interface has set `data_count`, and
  -- PROGRAM_2ND.
  abbrev pub program_row : Backend D → Nand D → ℕ → ℕ → (ℕ → ℕ) → Nand D
  program_row backend s row n bytes =
      let addressed = send_address (command_byte backend s cmd_program_1st) row in
      let counted = record addressed { data_count = min n addressed.page_buf_size } in
      command_byte backend (for_below n (λ i t. write_data_byte t (bytes i)) counted)
        cmd_program_2nd

  -- READ_1ST, the address and READ_2ND.
  abbrev pub read_row : Backend D → Nand D → ℕ → Nand D
  read_row backend s row =
      command_byte backend (send_address (command_byte backend s cmd_read_1st) row) cmd_read_2nd

  -- A chip that waits for no confirmation takes the byte for a command.
  pub first_command :
      (backend : Backend D) (s : Nand D) (c : ℕ)
      → is_cmd_state s.nand_state ≡ false
      → command_byte backend s c ≡ nand_command s c
  unfolding command_byte
  first_command backend s c ready =
      ap
        (λ b.
          if b && is_first_command s.nand_cmd then second_command backend s c else nand_command s c)
        ready

  pub addressed_program :
      (s : Nand D) (row : ℕ)
      → send_address (nand_command s cmd_program_1st) row
        ≡ address_program (record s {
          nand_cmd = cmd_program_1st;
          nand_addr = joined (row % 256) (row / 256);
          nand_addr_cycles = 4;
          nand_state = NandState.addr;
        })
  unfolding joined nand_address nand_command
  addressed_program s row = refl

  pub addressed_read :
      (s : Nand D) (row : ℕ)
      → send_address (nand_command s cmd_read_1st) row
        ≡ address_read (record s {
          nand_cmd = cmd_read_1st;
          nand_addr = joined (row % 256) (row / 256);
          nand_addr_cycles = 4;
          nand_state = NandState.addr;
        })
  unfolding joined nand_address nand_command
  addressed_read s row = refl

  -- `command_byte` by the chip's state and command.
  dispatch : Backend D → Nand D → ℕ → NandState → ℕ → Nand D
  dispatch backend s byte state cmd =
      if is_cmd_state state && is_first_command cmd
      then (if cmd == cmd_read_1st
          then (if byte == cmd_read_2nd then confirm_read s else s)
          else if cmd == cmd_program_1st
          then (if byte == cmd_program_2nd then confirm_program backend s else s)
          else if cmd == cmd_erase_1st
          then (if byte == cmd_erase_2nd then confirm_erase backend s else s)
          else s)
      else nand_command s byte

  -- PROGRAM_2ND, when the chip waits for it.
  pub second_program :
      (backend : Backend D) (s : Nand D)
      → s.nand_state ≡ NandState.cmd
      → s.nand_cmd ≡ cmd_program_1st
      → command_byte backend s cmd_program_2nd ≡ confirm_program backend s
  unfolding command_byte second_command is_cmd_state dispatch
  second_program backend s waiting programs =
      ap₂ (dispatch backend s cmd_program_2nd) waiting programs

  pub second_read :
      (backend : Backend D) (s : Nand D)
      → s.nand_state ≡ NandState.cmd
      → s.nand_cmd ≡ cmd_read_1st
      → command_byte backend s cmd_read_2nd ≡ confirm_read s
  unfolding command_byte second_command is_cmd_state dispatch
  second_read backend s waiting reads = ap₂ (dispatch backend s cmd_read_2nd) waiting reads

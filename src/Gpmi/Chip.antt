-- ===== src/Gpmi/Chip.antt =====
-- The command protocol of the flash chip (hw/block/stmp3770_gpmi.c): commands, address cycles and
-- data bytes.
use emu_gii.Prelude.{
  ℕ, ◌+◌, ◌*◌, ◌/◌, ◌%◌, bit_and, bit_or, Bool, true, false, not, [], ◌∷◌, ◌==◌, leb, ltb, ◌&&◌,
  ◌||◌, if◌then◌else◌, get_or, put_byte,
}
use emu_gii.Bits.{bit}
use emu_gii.Reg.{u32, ◌<<<◌, ◌>>>◌}
use emu_gii.Gpmi.Nand.{Nand, NandState, Backend, u64, load_page, store_page, erase_block}

abbrev pub cmd_read_1st : ℕ
cmd_read_1st = 0x00

abbrev pub cmd_read_2nd : ℕ
cmd_read_2nd = 0x30

abbrev pub cmd_read_id : ℕ
cmd_read_id = 0x90

abbrev pub cmd_reset : ℕ
cmd_reset = 0xFF

abbrev pub cmd_status : ℕ
cmd_status = 0x70

abbrev pub cmd_program_1st : ℕ
cmd_program_1st = 0x80

abbrev pub cmd_program_2nd : ℕ
cmd_program_2nd = 0x10

abbrev pub cmd_erase_1st : ℕ
cmd_erase_1st = 0x60

abbrev pub cmd_erase_2nd : ℕ
cmd_erase_2nd = 0xD0

-- `s->nand_state == NAND_STATE_CMD`
unfoldable pub is_cmd_state : NandState → Bool
is_cmd_state NandState.cmd = true
is_cmd_state NandState.idle = false
is_cmd_state NandState.addr = false
is_cmd_state NandState.data_in = false
is_cmd_state NandState.data_out = false
is_cmd_state NandState.wait_ready = false

-- The commands that a second one confirms.
abbrev pub is_first_command : ℕ → Bool
is_first_command cmd = cmd == cmd_read_1st || cmd == cmd_program_1st || cmd == cmd_erase_1st

-- A byte that the chip puts out.
pub record Out (D : Type 0) : Type 0 where
  pub nand : Nand D
  pub val : ℕ

module _ {D : Type 0} where
  -- `data_ptr++`, and the end of the transfer when `data_count` is reached
  unfoldable pub count_byte : NandState → Nand D → Nand D
  count_byte after s =
      let t = record s { data_ptr = u32 (s.data_ptr + 1) } in
      if leb t.data_count t.data_ptr then record t { nand_state = after } else t

  unfoldable pub decode_address : Nand D → Nand D
  decode_address s =
      let row = bit_and (s.nand_addr >>> 16) 0xFFFF in
      record s {
        nand_column = bit_and s.nand_addr 0xFFFF;
        nand_row = row;
        nand_page = row % s.pages_per_block;
        nand_block = row / s.pages_per_block;
      }

  unfoldable pub nand_command : Nand D → ℕ → Nand D
  nand_command s cmd =
      let t = record s { nand_cmd = cmd; nand_addr = 0; nand_addr_cycles = 0 } in
      if cmd == cmd_reset
      then record t { nand_state = NandState.wait_ready }
      else if cmd == cmd_read_id
      then record t { nand_state = NandState.addr }
      else if cmd == cmd_status
      then record t { nand_state = NandState.wait_ready }
      else if is_first_command cmd
      then record t { nand_state = NandState.addr }
      else record t { nand_state = NandState.idle }

  -- The byte joins `nand_addr`, if it is one of the first four.
  unfoldable pub take_address : Nand D → ℕ → Nand D
  take_address s addr =
      let joined =
        if ltb s.nand_addr_cycles 4
        then bit_or s.nand_addr (u32 (addr <<< (s.nand_addr_cycles * 8)))
        else s.nand_addr in
      record s { nand_addr = joined; nand_addr_cycles = u32 (s.nand_addr_cycles + 1) }

  -- The address of a page to read is complete.
  unfoldable pub address_read : Nand D → Nand D
  unfolding decode_address
  address_read s = record (decode_address s) { nand_state = NandState.cmd }

  -- The address of a page to program is complete: its bytes follow, into a page of ones.
  unfoldable pub address_program : Nand D → Nand D
  unfolding decode_address
  address_program s =
      let t = decode_address s in
      record t {
        nand_state = NandState.data_in;
        data_count = t.page_size;
        data_ptr = 0;
        data_dir_write = true;
        page_buf = λ i. if ltb i t.page_buf_size then 0xFF else t.page_buf i;
      }

  unfoldable pub address_erase : Nand D → Nand D
  address_erase s =
      let row = bit_and s.nand_addr 0xFF_FFFF in
      record s {
        nand_row = row;
        nand_block = row / s.pages_per_block;
        nand_page = row % s.pages_per_block;
        nand_state = NandState.cmd;
      }

  unfoldable pub nand_address : Nand D → ℕ → Nand D
  unfolding take_address address_read address_program address_erase
  nand_address s addr =
      let t = take_address s addr in
      if t.nand_cmd == cmd_read_id
      then record t { nand_state = NandState.data_out; data_count = 6; data_ptr = 0 }
      else if t.nand_cmd == cmd_read_1st
      then (if leb 4 t.nand_addr_cycles then address_read t else t)
      else if t.nand_cmd == cmd_program_1st
      then (if leb 4 t.nand_addr_cycles then address_program t else t)
      else if t.nand_cmd == cmd_erase_1st
      then (if leb 3 t.nand_addr_cycles then address_erase t else t)
      else t

  unfoldable pub read_data_byte : Nand D → Out D
  unfolding count_byte
  read_data_byte s =
      if s.nand_cmd == cmd_read_id
      then record {
        nand = count_byte NandState.idle s;
        val = get_or (0xEC ∷ 0xDC ∷ 0x10 ∷ 0x95 ∷ 0x54 ∷ []) s.data_ptr 0xFF;
      }
      else if s.nand_cmd == cmd_status
      then record { nand = record s { nand_state = NandState.idle }; val = 0xE0 }
      else if s.nand_cmd == cmd_read_1st
      then record {
        nand = count_byte NandState.idle s;
        val = if ltb s.data_ptr s.page_size then s.page_buf s.data_ptr else 0xFF;
      }
      else record { nand = s; val = 0xFF }

  unfoldable pub write_data_byte : Nand D → ℕ → Nand D
  unfolding count_byte
  write_data_byte s val =
      let buf =
        if ltb s.data_ptr s.page_buf_size then put_byte s.page_buf s.data_ptr val else s.page_buf in
      if s.nand_cmd == cmd_program_1st
      then count_byte NandState.cmd (record s { page_buf = buf })
      else s

  -- READ_2ND
  unfoldable pub confirm_read : Nand D → Nand D
  unfolding decode_address load_page
  confirm_read s =
      let r = load_page (decode_address s) in
      if r.success
      then record r.nand {
        nand_state = NandState.wait_ready;
        data_count = r.nand.page_size;
        data_ptr = 0;
      }
      else record r.nand { nand_state = NandState.idle }

  -- PROGRAM_2ND and ERASE_2ND do not look at what the operation returns.
  unfoldable pub confirm_program : Backend D → Nand D → Nand D
  unfolding store_page
  confirm_program backend s = record (store_page backend s).nand {
    nand_state = NandState.wait_ready;
  }

  unfoldable pub confirm_erase : Backend D → Nand D → Nand D
  unfolding erase_block
  confirm_erase backend s =
      let t = (erase_block backend s).nand in
      record t { nand_state = NandState.wait_ready; block_erase_cnt = u64 (t.block_erase_cnt + 1) }

  unfoldable pub second_command : Backend D → Nand D → ℕ → Nand D
  unfolding confirm_read confirm_program confirm_erase
  second_command backend s cmd =
      if s.nand_cmd == cmd_read_1st
      then (if cmd == cmd_read_2nd then confirm_read s else s)
      else if s.nand_cmd == cmd_program_1st
      then (if cmd == cmd_program_2nd then confirm_program backend s else s)
      else if s.nand_cmd == cmd_erase_1st
      then (if cmd == cmd_erase_2nd then confirm_erase backend s else s)
      else s

  -- The first byte on CLE: a confirmation, if the chip waits for one, or a command.
  unfoldable pub command_byte : Backend D → Nand D → ℕ → Nand D
  unfolding second_command nand_command is_cmd_state
  command_byte backend s byte =
      if is_cmd_state s.nand_state && is_first_command s.nand_cmd
      then second_command backend s byte
      else nand_command s byte

  -- The address field of `ctrl0` is 1 for CLE, 2 for ALE and 0 for data.
  unfoldable pub handle_write_byte : Backend D → ℕ → Nand D → ℕ → Nand D
  unfolding command_byte nand_address write_data_byte
  handle_write_byte backend ctrl0 s byte =
      let address = bit_and (ctrl0 >>> 17) 0x7 in
      if address == 1
      then (if not s.write_cmd_sent
          then record (command_byte backend s byte) { write_cmd_sent = true }
          else if bit ctrl0 16
          then nand_address s byte
          else s)
      else if address == 2
      then nand_address s byte
      else if address == 0
      then write_data_byte s byte
      else s

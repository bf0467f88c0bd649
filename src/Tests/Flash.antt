-- ===== src/Tests/Flash.antt =====
-- The NAND flash on a chip of two blocks of two rows, of four bytes and two spare bytes each.
use emu_gii.Prelude.{
  ℕ, ◌+◌, ◌≤◌, ◌≡◌, refl, true, false, arith, some, ltb, if◌then◌else◌, ◌==◌, ◌/◌,
}
use emu_gii.Prelude.{[], ◌∷◌}
use emu_gii.Gpmi.Fifo.{Fifo, fifo_clear}
use emu_gii.Gpmi.Queue.{Request, answers, serve, serve_queue, answers-queue}
use emu_gii.Gpmi.Nand.{Nand, NandState, StorageLayout, Backend, erase_block, page_offsets}
use emu_gii.Gpmi.Chip.{is_cmd_state}
use emu_gii.Gpmi.Flash.{IsImage, page_of, page_offsets-bounds}
use emu_gii.Gpmi.Erase.{erase_block-wipe}
use emu_gii.Gpmi.Protocol.{program_row, read_row}
use emu_gii.Gpmi.RoundTrip.{read-program}

-- A backend that counts its writes and refuses the third.
abbrev counting : Backend ℕ
counting = record { pwrite = λ d offset n buf. record { backend = d + 1; success = ltb d 2 } }

abbrev chip : Nand ℕ
chip = record {
  blk = some 0;
  has_storage = true;
  storage = λ i. i;
  storage_size = 24;
  storage_layout = StorageLayout.appended_oob;
  page_size = 4;
  pages_per_block = 2;
  num_blocks = 2;
  oob_size = 2;
  write_cmd_sent = false;
  nand_state = NandState.idle;
  nand_cmd = 0;
  nand_addr = 0;
  nand_addr_cycles = 0;
  nand_column = 0;
  nand_page = 1;
  nand_block = 1;
  nand_row = 3;
  data_count = 0;
  data_ptr = 0;
  data_dir_write = false;
  page_buf = λ i. 100 + i;
  page_buf_size = 6;
  page_write_cnt = 0;
  block_erase_cnt = 0;
}

chip-IsImage : IsImage chip
chip-IsImage = record {
  geometry = record {
    some_pages = omega arith;
    word = omega arith;
    buffer = refl;
    counted = omega arith;
    fits = omega arith;
  };
  present = refl;
  room = omega arith;
}

erase_block-wipe_example :
    page_of (erase_block counting chip).nand 3 4 ≡ (if 3 / 2 == 1 then 0xFF else page_of chip 3 4)
erase_block-wipe_example =
    erase_block-wipe counting chip 3 4 chip-IsImage (omega arith) (omega arith) (omega arith)

idle_first : is_cmd_state NandState.idle ≡ false
unfolding is_cmd_state
idle_first = refl

read-program_example :
    (read_row counting (program_row counting chip 1 5 (λ i. 7 + i)) 1).page_buf 4
    ≡ (if 1 == 1 then if ltb 4 5 then 7 + 4 else 0xFF else page_of chip 1 4)
read-program_example =
    read-program counting chip 1 5 (λ i. 7 + i) 1 4 chip-IsImage idle_first (omega arith)
      (omega arith) (omega arith) (omega arith) (omega arith) (omega arith)

fourth_row : page_offsets chip ≡ some (record { data_offset = 12; oob_offset = 22 })
unfolding page_offsets
fourth_row = refl

page_offsets-bounds_example : (12 + 4 ≤ 22) × (22 + 2 ≤ 24)
page_offsets-bounds_example =
    page_offsets-bounds chip (record { data_offset = 12; oob_offset = 22 }) (chip-IsImage.geometry)
      fourth_row

abbrev unread : Fifo
unread = record { fifo_count = 3; data_fifo = λ i. i; stat = 0 }

answers-queue_example :
    answers serve
      (Request.pop ∷ Request.push 7 ∷ Request.push 9 ∷ Request.pop ∷ [])
      (fifo_clear unread)
    ≡ answers serve_queue (Request.pop ∷ Request.push 7 ∷ Request.push 9 ∷ Request.pop ∷ []) []
answers-queue_example =
    answers-queue (Request.pop ∷ Request.push 7 ∷ Request.push 9 ∷ Request.pop ∷ []) unread

-- ===== src/Gpmi/RoundTrip.antt =====
-- A row that is programmed through the chip's commands is read back by them
-- (hw/block/stmp3770_gpmi.c).
use emu_gii.Prelude.{
  ℕ, ◌+◌, ◌/◌, ◌%◌, ◌^◌, ◌<◌, ◌≤◌, ◌≡◌, refl, sym, ◌∙◌, ap, ap₂, subst, arith, min, false, ltb,
  ◌==◌, if◌then◌else◌, if_split, for_below,
}
use emu_gii.Gpmi.Nand.{Nand, NandState, Backend, Result, store_page, load_page}
use emu_gii.Gpmi.Pages.{pages}
use emu_gii.Gpmi.Flash.{IsImage, page_of, store_page-program, load_page-read}
use emu_gii.Gpmi.Protocol.{
  joined, row-joined, send_address, program_row, read_row, first_command, addressed_program,
  addressed_read, second_program, second_read,
}
use emu_gii.Gpmi.Fill.{Filling, fill}
use emu_gii.Gpmi.Chip.{
  cmd_read_1st, cmd_read_2nd, cmd_program_1st, cmd_program_2nd, is_cmd_state, address_read,
  confirm_program, confirm_read, decode_address, address_program, write_data_byte, command_byte,
}
use emu_gii.Gpmi.Geometry.{SameGeometry-path, IsImage-moved, store_page-SameGeometry}

module _ {D : Type 0} where
  -- What the program command leaves of the state before its data.
  abbrev ready_to_fill : Nand D → ℕ → ℕ → Nand D
  ready_to_fill s row n =
      let t = address_program (record s {
        nand_cmd = cmd_program_1st;
        nand_addr = joined (row % 256) (row / 256);
        nand_addr_cycles = 4;
        nand_state = NandState.addr;
      }) in
      record t { data_count = min n t.page_buf_size }

  filled_row :
      (s : Nand D) (row n : ℕ) (bytes : ℕ → ℕ)
      → IsImage s
      → n ≤ s.page_buf_size
      → Filling
          (ready_to_fill s row n)
          bytes
          n
          n
          (for_below n (λ j u. write_data_byte u (bytes j)) (ready_to_fill s row n))
  unfolding address_program decode_address
  filled_row s row n bytes v room =
      let counted : min n s.page_buf_size ≡ n = omega arith in
      fill (ready_to_fill s row n) bytes n refl counted refl room v.geometry.word

  programmed :
      (backend : Backend D) (s : Nand D) (row n : ℕ) (bytes : ℕ → ℕ)
      → IsImage s
      → is_cmd_state s.nand_state ≡ false
      → 0 < n
      → n ≤ s.page_buf_size
      → program_row backend s row n bytes
        ≡ confirm_program backend
            (for_below n (λ j u. write_data_byte u (bytes j)) (ready_to_fill s row n))
  unfolding address_program decode_address
  programmed backend s row n bytes v ready some_bytes room =
      let t = for_below n (λ j u. write_data_byte u (bytes j)) (ready_to_fill s row n) in
      let f = filled_row s row n bytes v room in
      let last : n ≤ n = omega arith in
      ap
        (λ (u : Nand D).
          command_byte backend
            (for_below n (λ j w. write_data_byte w (bytes j))
              (record u { data_count = min n u.page_buf_size }))
            cmd_program_2nd)
        (ap (λ (u : Nand D). send_address u row) (first_command backend s cmd_program_1st ready)
          ∙ addressed_program s row)
      ∙ second_program backend t (f.ended some_bytes last) (ap (λ (u : Nand D). u.nand_cmd) f.frame)

  -- Every row after a row was programmed.
  program_row-page :
      (backend : Backend D) (s : Nand D) (row n : ℕ) (bytes : ℕ → ℕ) (other i : ℕ)
      → IsImage s
      → is_cmd_state s.nand_state ≡ false
      → row < pages s
      → row < 2 ^ 16
      → 0 < n
      → n ≤ s.page_buf_size
      → other < pages s
      → i < s.page_size + s.oob_size
      → page_of (program_row backend s row n bytes) other i
        ≡ (if row == other then if ltb i n then bytes i else 0xFF else page_of s other i)
  unfolding address_program decode_address confirm_program
  program_row-page backend s row n bytes other i v ready h small some_bytes room k below =
      let s0 = ready_to_fill s row n in
      let t = for_below n (λ j u. write_data_byte u (bytes j)) s0 in
      let f = filled_row s row n bytes v room in
      let image : IsImage t = IsImage-moved s t (SameGeometry-path t _ f.frame) v in
      let here : t.nand_row ≡ row =
        ap (λ (u : Nand D). u.nand_row) f.frame ∙ row-joined row small in
      let in_range : t.nand_row < pages t =
        subst (λ (u : Nand D). t.nand_row < pages u) (sym f.frame)
          (subst (λ (r : ℕ). r < pages s) (sym here) h) in
      let other_range : other < pages t = subst (λ (u : Nand D). other < pages u) (sym f.frame) k in
      let inside : i < t.page_size + t.oob_size =
        subst (λ (u : Nand D). i < u.page_size + u.oob_size) (sym f.frame) below in
      ap (λ (u : Nand D). page_of u other i)
        (programmed backend s row n bytes v ready some_bytes room)
      ∙ store_page-program backend t other i image in_range other_range inside
      ∙ ap (λ (r : ℕ). if r == other then t.page_buf i else page_of t other i) here
      ∙ ap₂ (λ (x y : ℕ). if row == other then x else y)
          (f.filled i (omega (arith, v.geometry.buffer))
            ∙ blank_after s.page_buf s.page_buf_size (omega (arith, v.geometry.buffer)))
          (ap (λ (u : Nand D). page_of u other i) f.frame)
    where
      blank_after :
          (base : ℕ → ℕ) (size : ℕ)
          → i < size
          → (if ltb i n then bytes i else if ltb i size then 0xFF else base i)
            ≡ (if ltb i n then bytes i else 0xFF)
      blank_after base size inside = ground arith

  -- The buffer after READ_2ND is the one that the load left, whether it succeeded or not.
  same_buffer :
      (r : Result D) (i : ℕ)
      → (if r.success
            then record r.nand {
              nand_state = NandState.wait_ready;
              data_count = r.nand.page_size;
              data_ptr = 0;
            }
            else record r.nand { nand_state = NandState.idle }).page_buf
          i
        ≡ r.nand.page_buf i
  same_buffer r i =
      if_split (λ (u : Nand D). u.page_buf i ≡ r.nand.page_buf i) r.success _ _ (λ _. refl)
        (λ _. refl)

  -- READ leaves the addressed row in the page buffer.
  read_row-page :
      (backend : Backend D) (s : Nand D) (row i : ℕ)
      → IsImage s
      → is_cmd_state s.nand_state ≡ false
      → row < pages s
      → row < 2 ^ 16
      → i < s.page_size + s.oob_size
      → (read_row backend s row).page_buf i ≡ page_of s row i
  unfolding address_read confirm_read decode_address
  read_row-page backend s row i v ready h small below =
      let address = joined (row % 256) (row / 256) in
      let asked = address_read (record s {
        nand_cmd = cmd_read_1st;
        nand_addr = address;
        nand_addr_cycles = 4;
        nand_state = NandState.addr;
      }) in
      let there = decode_address asked in
      let here : there.nand_row ≡ row = row-joined row small in
      let image : IsImage there = IsImage-moved s there refl v in
      let loaded =
        load_page-read there i image (subst (λ (r : ℕ). r < pages s) (sym here) h) below in
      let finished : read_row backend s row ≡ confirm_read asked =
        ap (λ (u : Nand D). command_byte backend u cmd_read_2nd)
          (ap (λ (u : Nand D). send_address u row) (first_command backend s cmd_read_1st ready)
            ∙ addressed_read s row)
        ∙ second_read backend asked refl refl in
      ap (λ (u : Nand D). u.page_buf i) finished
      ∙ same_buffer (load_page there) i
      ∙ loaded.1
      ∙ ap (λ (r : ℕ). page_of s r i) here

  -- A row that is read after a row was programmed, both by the chip's commands: the row that was
  -- programmed holds its bytes, and ones after them, and any other row holds what it held before,
  -- also if the backend refuses to keep the page. The chip waits for no confirmation at first, has
  -- at most 65536 rows and a storage with room for all of them; both rows are in range, and the
  -- bytes, for which the interface has set `data_count`, are at least one and fit the page with
  -- its spare bytes.
  pub read-program :
      (backend : Backend D) (s : Nand D) (row n : ℕ) (bytes : ℕ → ℕ) (other i : ℕ)
      → IsImage s
      → is_cmd_state s.nand_state ≡ false
      → pages s ≤ 2 ^ 16
      → row < pages s
      → 0 < n
      → n ≤ s.page_buf_size
      → other < pages s
      → i < s.page_size + s.oob_size
      → (read_row backend (program_row backend s row n bytes) other).page_buf i
        ≡ (if row == other then if ltb i n then bytes i else 0xFF else page_of s other i)
  unfolding confirm_program is_cmd_state address_program
  read-program backend s row n bytes other i v ready small h some_bytes room k below =
      let u = program_row backend s row n bytes in
      let t = for_below n (λ j w. write_data_byte w (bytes j)) (ready_to_fill s row n) in
      let f = filled_row s row n bytes v room in
      let end : u ≡ confirm_program backend t =
        programmed backend s row n bytes v ready some_bytes room in
      let image : IsImage t = IsImage-moved s t (SameGeometry-path t _ f.frame) v in
      let stored = store_page-SameGeometry backend t in
      let after : IsImage (store_page backend t).nand =
        IsImage-moved t (store_page backend t).nand stored image in
      let done : IsImage u =
        subst IsImage (sym end)
          (IsImage-moved (store_page backend t).nand (confirm_program backend t) refl after) in
      let same_pages : pages u ≡ pages s =
        ap (λ (w : Nand D). pages w) end
        ∙ ap (λ (w : Nand D). pages w) stored
        ∙ ap (λ (w : Nand D). pages w) f.frame in
      let same_size : u.page_size + u.oob_size ≡ s.page_size + s.oob_size =
        ap (λ (w : Nand D). w.page_size + w.oob_size) end
        ∙ ap (λ (w : Nand D). w.page_size + w.oob_size) stored
        ∙ ap (λ (w : Nand D). w.page_size + w.oob_size) f.frame in
      read_row-page backend u other i done (ap (λ (w : Nand D). is_cmd_state w.nand_state) end)
        (omega (arith, same_pages)) (omega arith) (omega (arith, same_size))
      ∙ program_row-page backend s row n bytes other i v ready h (omega arith) some_bytes room k
          below

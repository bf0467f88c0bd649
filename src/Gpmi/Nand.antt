-- ===== src/Gpmi/Nand.antt =====
-- The flash chip behind the interface (hw/block/stmp3770_gpmi.c): its geometry, and the pages and
-- blocks of the backing storage.
use emu_gii.Prelude.{
  ℕ, ◌+◌, ◌*◌, ◌^◌, ◌%◌, Bool, true, false, not, ◌||◌, ◌&&◌, Option, none, some, ◌==◌, leb, ltb,
  if◌then◌else◌, memcpy, memset, shift_by,
}

-- `STMP3770NandState`
pub data NandState : Type 0 where
  idle cmd addr data_in data_out wait_ready : NandState

-- `STMP3770GPMIStorageLayout`
pub data StorageLayout : Type 0 where
  appended_oob interleaved_oob : StorageLayout

-- `blk_pwrite (blk, offset, n, buf)`: the backend afterwards, and whether the result is not negative.
pub record Written (D : Type 0) : Type 0 where
  pub backend : D
  pub success : Bool

pub record Backend (D : Type 0) : Type 0 where
  pub pwrite : D → ℕ → ℕ → (ℕ → ℕ) → Written D

-- The fields of the device's state that the chip has: the storage and its geometry, the protocol's
-- state, and the page buffer. Without storage, `has_storage` is false; without a backend, `blk` is
-- none.
pub record Nand (D : Type 0) : Type 0 where
  pub blk : Option D
  pub has_storage : Bool
  pub storage : ℕ → ℕ
  pub storage_size : ℕ
  pub storage_layout : StorageLayout
  pub page_size : ℕ
  pub pages_per_block : ℕ
  pub num_blocks : ℕ
  pub oob_size : ℕ
  pub write_cmd_sent : Bool
  pub nand_state : NandState
  pub nand_cmd : ℕ
  pub nand_addr : ℕ
  pub nand_addr_cycles : ℕ
  pub nand_column : ℕ
  pub nand_page : ℕ
  pub nand_block : ℕ
  pub nand_row : ℕ
  pub data_count : ℕ
  pub data_ptr : ℕ
  pub data_dir_write : Bool
  pub page_buf : ℕ → ℕ
  pub page_buf_size : ℕ
  pub page_write_cnt : ℕ
  pub block_erase_cnt : ℕ

abbrev pub u64 : ℕ → ℕ
u64 n = n % 2 ^ 64

-- What `gpmi_nand_page_offsets` stores through its pointers, if it returns true.
pub record Offsets : Type 0 where
  pub data_offset : ℕ
  pub oob_offset : ℕ

-- The locals of `gpmi_nand_erase_block`.
pub record Extent : Type 0 where
  pub data_offset : ℕ
  pub data_size : ℕ
  pub oob_offset : ℕ
  pub erase_oob_size : ℕ

-- A function that returns whether it succeeds.
pub record Result (D : Type 0) : Type 0 where
  pub nand : Nand D
  pub success : Bool

unfoldable pub is_interleaved : StorageLayout → Bool
is_interleaved StorageLayout.interleaved_oob = true
is_interleaved StorageLayout.appended_oob = false

module _ {D : Type 0} where
  abbrev pub total_pages : Nand D → ℕ
  total_pages s = u64 (s.pages_per_block * s.num_blocks)

  abbrev pub data_area_size : Nand D → ℕ
  data_area_size s = u64 (total_pages s * s.page_size)

  abbrev pub oob_area_size : Nand D → ℕ
  oob_area_size s = u64 (total_pages s * s.oob_size)

  abbrev pub interleaved_area_size : Nand D → ℕ
  interleaved_area_size s = u64 (total_pages s * s.page_buf_size)

  abbrev pub appended_oob_offset : Nand D → ℕ
  appended_oob_offset s = data_area_size s

  -- The offsets of a row, in range or not.
  unfoldable pub row_offsets : Nand D → ℕ → Offsets
  unfolding is_interleaved
  row_offsets s row =
      if is_interleaved s.storage_layout
      then record {
        data_offset = u64 (row * s.page_buf_size);
        oob_offset = u64 (u64 (row * s.page_buf_size) + s.page_size);
      }
      else record {
        data_offset = u64 (row * s.page_size);
        oob_offset = u64 (appended_oob_offset s + u64 (row * s.oob_size));
      }

  unfoldable pub page_offsets : Nand D → Option Offsets
  unfolding row_offsets
  page_offsets s =
      let o = row_offsets s s.nand_row in
      if leb (total_pages s) s.nand_row
      then none
      else if ltb s.storage_size (u64 (o.data_offset + s.page_size))
          || ltb s.storage_size (u64 (o.oob_offset + s.oob_size))
      then none
      else some o

  unfoldable pub load_page_at : Nand D → Option Offsets → Result D
  load_page_at s none = record { nand = s; success = false }
  load_page_at s (some o) = record {
    nand = record s {
      page_buf =
          memcpy (memcpy s.page_buf 0 (shift_by o.data_offset s.storage) s.page_size) s.page_size
            (shift_by o.oob_offset s.storage) s.oob_size;
    };
    success = true;
  }

  unfoldable pub load_page : Nand D → Result D
  unfolding page_offsets load_page_at
  load_page s =
      if s.has_storage
      then load_page_at s (page_offsets s)
      else record { nand = s; success = false }

  -- The two copies into the storage.
  unfoldable pub put_page : Nand D → Offsets → Nand D
  put_page s o = record s {
    storage =
        memcpy (memcpy s.storage o.data_offset s.page_buf s.page_size) o.oob_offset
          (shift_by s.page_size s.page_buf) s.oob_size;
  }

  -- `s->page_write_cnt++`, after everything was written
  abbrev pub count_write : Nand D → Result D
  count_write s = record {
    nand = record s { page_write_cnt = u64 (s.page_write_cnt + 1) };
    success = true;
  }

  -- `if (s->blk) ..`: the page and its spare bytes go to the backend, until a write fails.
  unfoldable pub flush_page : Backend D → Nand D → Offsets → Option D → Result D
  flush_page backend s o none = count_write s
  flush_page backend s o (some blk) =
      let first = backend.pwrite blk o.data_offset s.page_size s.page_buf in
      let second =
        backend.pwrite first.backend o.oob_offset s.oob_size (shift_by s.page_size s.page_buf) in
      if not first.success
      then record { nand = record s { blk = some first.backend }; success = false }
      else if not second.success
      then record { nand = record s { blk = some second.backend }; success = false }
      else count_write (record s { blk = some second.backend })

  unfoldable pub store_page_at : Backend D → Nand D → Option Offsets → Result D
  unfolding put_page flush_page
  store_page_at backend s none = record { nand = s; success = false }
  store_page_at backend s (some o) = flush_page backend (put_page s o) o s.blk

  unfoldable pub store_page : Backend D → Nand D → Result D
  unfolding page_offsets store_page_at
  store_page backend s =
      if s.has_storage
      then store_page_at backend s (page_offsets s)
      else record { nand = s; success = false }

  unfoldable pub extent_of : Nand D → Extent
  unfolding is_interleaved
  extent_of s =
      let first = u64 (s.nand_block * s.pages_per_block) in
      if is_interleaved s.storage_layout
      then record {
        data_offset = u64 (first * s.page_buf_size);
        data_size = u64 (s.pages_per_block * s.page_buf_size);
        oob_offset = 0;
        erase_oob_size = 0;
      }
      else record {
        data_offset = u64 (first * s.page_size);
        data_size = u64 (s.pages_per_block * s.page_size);
        oob_offset = u64 (appended_oob_offset s + u64 (first * s.oob_size));
        erase_oob_size = u64 (s.pages_per_block * s.oob_size);
      }

  -- The two fills. A fill of no bytes changes nothing.
  unfoldable pub wipe : Nand D → Extent → Nand D
  wipe s x =
      let wiped = memset s.storage x.data_offset 0xFF x.data_size in
      record s {
        storage =
            if x.erase_oob_size == 0
            then wiped
            else memset wiped x.oob_offset 0xFF x.erase_oob_size;
      }

  unfoldable pub flush_block : Backend D → Nand D → Extent → Option D → Result D
  flush_block backend s x none = record { nand = s; success = true }
  flush_block backend s x (some blk) =
      let first = backend.pwrite blk x.data_offset x.data_size (shift_by x.data_offset s.storage) in
      let second =
        backend.pwrite first.backend x.oob_offset x.erase_oob_size
          (shift_by x.oob_offset s.storage) in
      if not first.success
      then record { nand = record s { blk = some first.backend }; success = false }
      else if x.erase_oob_size == 0
      then record { nand = record s { blk = some first.backend }; success = true }
      else record { nand = record s { blk = some second.backend }; success = second.success }

  unfoldable pub erase_extent : Backend D → Nand D → Extent → Result D
  unfolding wipe flush_block
  erase_extent backend s x =
      if not s.has_storage
      then record { nand = s; success = false }
      else if leb s.num_blocks s.nand_block
      then record { nand = s; success = false }
      else if ltb s.storage_size (u64 (x.data_offset + x.data_size))
          || (not (x.erase_oob_size == 0)
              && ltb s.storage_size (u64 (x.oob_offset + x.erase_oob_size)))
      then record { nand = s; success = false }
      else flush_block backend (wipe s x) x s.blk

  unfoldable pub erase_block : Backend D → Nand D → Result D
  unfolding extent_of erase_extent
  erase_block backend s = erase_extent backend s (extent_of s)

-- ===== src/Gpmi/Geometry.antt =====
-- Storing a page leaves the geometry of the chip alone (hw/block/stmp3770_gpmi.c).
use emu_gii.Prelude.{◌≡◌, refl, sym, subst, not, shift_by, Option, some, none, if_split}
use emu_gii.Gpmi.Nand.{
  Nand, Backend, Offsets, Result, page_offsets, put_page, flush_page, store_page_at, store_page,
}
use emu_gii.Gpmi.Flash.{IsImage}

module _ {D : Type 0} where
  -- The fields that say what the chip is agree.
  abbrev pub SameGeometry : Nand D → Nand D → Type 0
  SameGeometry s t = t ≡ record t {
    has_storage = s.has_storage;
    storage_size = s.storage_size;
    storage_layout = s.storage_layout;
    page_size = s.page_size;
    pages_per_block = s.pages_per_block;
    num_blocks = s.num_blocks;
    oob_size = s.oob_size;
    page_buf_size = s.page_buf_size;
  }

  pub SameGeometry-path : (t u : Nand D) → t ≡ u → SameGeometry u t
  SameGeometry-path t u e = λ i. record t {
    has_storage = (e i).has_storage;
    storage_size = (e i).storage_size;
    storage_layout = (e i).storage_layout;
    page_size = (e i).page_size;
    pages_per_block = (e i).pages_per_block;
    num_blocks = (e i).num_blocks;
    oob_size = (e i).oob_size;
    page_buf_size = (e i).page_buf_size;
  }

  pub IsImage-moved : (s t : Nand D) → SameGeometry s t → IsImage s → IsImage t
  IsImage-moved s t same v =
      let g = v.geometry in
      subst IsImage (sym same) (record {
        geometry = record {
          some_pages = g.some_pages;
          word = g.word;
          buffer = g.buffer;
          counted = g.counted;
          fits = g.fits;
        };
        present = v.present;
        room = v.room;
      })

  flush_page-SameGeometry :
      (backend : Backend D) (s : Nand D) (o : Offsets) (blk : Option D)
      → SameGeometry s (flush_page backend s o blk).nand
  unfolding flush_page
  flush_page-SameGeometry backend s o none = refl
  flush_page-SameGeometry backend s o (some blk) =
      let P = λ (r : Result D). SameGeometry s r.nand in
      let first = backend.pwrite blk o.data_offset s.page_size s.page_buf in
      if_split P (not first.success) _ _ (λ _. refl)
        (λ _.
          if_split P
            (not
              (backend.pwrite first.backend o.oob_offset s.oob_size
                (shift_by s.page_size s.page_buf)).success)
            _ _ (λ _. refl) (λ _. refl))

  store_page_at-SameGeometry :
      (backend : Backend D) (s : Nand D) (o : Option Offsets)
      → SameGeometry s (store_page_at backend s o).nand
  unfolding store_page_at put_page
  store_page_at-SameGeometry backend s none = refl
  store_page_at-SameGeometry backend s (some o) =
      flush_page-SameGeometry backend (put_page s o) o s.blk

  pub store_page-SameGeometry :
      (backend : Backend D) (s : Nand D) → SameGeometry s (store_page backend s).nand
  unfolding store_page
  store_page-SameGeometry backend s =
      if_split (λ (r : Result D). SameGeometry s r.nand) s.has_storage _ _
        (λ _. store_page_at-SameGeometry backend s (page_offsets s)) (λ _. refl)

-- ===== src/Gpmi/Erase.antt =====
-- What erasing a block does to the rows of the flash (hw/block/stmp3770_gpmi.c).
use emu_gii.Prelude.{
  ℕ, ◌+◌, ◌-◌, ◌*◌, ◌/◌, ◌<◌, ◌≤◌, ◌≡◌, refl, ◌∙◌, ap, arith, Bool, true, false, not, ltb, leb,
  ◌==◌, ◌&&◌, if◌then◌else◌, memset, memset-inside, memset-outside, shift_by, inl, inr, Option,
  some, none, if_split,
}
use native.Mathlib.Nat.{add-mul, mul-le-mul_right, div-mul-le_self, lt-div-mul-add}
use emu_gii.Gpmi.Nand.{
  Nand, Backend, Extent, Result, u64, extent_of, wipe, flush_block, erase_block, erase_extent,
  is_interleaved, appended_oob_offset,
}
use emu_gii.Gpmi.Pages.{pages, IsGeometry, address_by, data_area-eq, buffer_split, rows_apart}
use emu_gii.Gpmi.Flash.{IsImage, page_of}

-- Where a row lies from the rows of the block, in units of `k` bytes.
from_block :
    (first count other k : ℕ)
    → (other < first → other * k + k ≤ first * k)
      × (first ≤ other → first * k ≤ other * k)
      × (other < first + count → other * k + k ≤ first * k + count * k)
      × (first + count ≤ other → first * k + count * k ≤ other * k)
from_block first count other k = (
  λ h. rows_apart other first k h,
  λ h. mul-le-mul_right k h,
  λ h. omega (arith, rows_apart other (first + count) k h, add-mul first count k),
  λ h. omega (arith, mul-le-mul_right {m = first + count} {n = other} k h, add-mul first count k),
)

fill_always :
    (buf : ℕ → ℕ) (at n a : ℕ)
    → (if n == 0 then buf else memset buf at 0xFF n) a ≡ memset buf at 0xFF n a
fill_always buf at n a = ground arith

module _ {D : Type 0} where
  abbrev first_row : Nand D → ℕ
  first_row s = s.nand_block * s.pages_per_block

  -- The extent without wrap-around.
  abbrev extent_by : Bool → Nand D → Extent
  extent_by interleaved s = record {
    data_offset = if interleaved then first_row s * s.page_buf_size else first_row s * s.page_size;
    data_size =
        if interleaved
        then s.pages_per_block * s.page_buf_size
        else s.pages_per_block * s.page_size;
    oob_offset = if interleaved then 0 else pages s * s.page_size + first_row s * s.oob_size;
    erase_oob_size = if interleaved then 0 else s.pages_per_block * s.oob_size;
  }

  in_block : Nand D → ℕ → Bool
  in_block s other = leb (first_row s) other && ltb other (first_row s + s.pages_per_block)

  module _ (s : Nand D) (g : IsGeometry s) (valid : s.nand_block < s.num_blocks) where
    block_end : first_row s + s.pages_per_block ≤ pages s
    block_end = grind (arith, rows_apart s.nand_block s.num_blocks s.pages_per_block valid)

    wipe-page :
        (b : Bool) (other i : ℕ)
        → other < pages s
        → i < s.page_size + s.oob_size
        → (wipe s (extent_by b s)).storage (address_by b s other i)
          ≡ (if in_block s other then 0xFF else s.storage (address_by b s other i))
    unfolding wipe in_block
    wipe-page true other i k below =
        let f = from_block (first_row s) s.pages_per_block other s.page_buf_size in
        ground (arith, f.0, f.1, f.2, f.3, g.buffer)
    wipe-page false other i k below =
        let f = from_block (first_row s) s.pages_per_block other s.page_size in
        let o = from_block (first_row s) s.pages_per_block other s.oob_size in
        let all = from_block (first_row s) s.pages_per_block (pages s) s.page_size in
        let area = all.3 block_end in
        let own = rows_apart other (pages s) s.page_size k in
        let wiped =
          memset s.storage (first_row s * s.page_size) 0xFF (s.pages_per_block * s.page_size) in
        let spare = pages s * s.page_size + first_row s * s.oob_size in
        let count = s.pages_per_block * s.oob_size in
        let a = address_by false s other i in
        fill_always wiped spare count a
        ∙ if_split (λ (x : ℕ). memset wiped spare 0xFF count a ≡ x) (in_block s other) 0xFF
            (s.storage a)
            (λ inside.
              if_split (λ (n : ℕ). memset wiped spare 0xFF count n ≡ 0xFF) (ltb i s.page_size) _ _
                (λ early.
                  memset-outside wiped spare 0xFF count (other * s.page_size + i)
                    (inl (ground (arith, own)))
                  ∙ memset-inside s.storage (first_row s * s.page_size) 0xFF
                      (s.pages_per_block * s.page_size) (other * s.page_size + i)
                      (ground (arith, f.1)) (ground (arith, f.2)))
                (λ late.
                  memset-inside wiped spare 0xFF count
                    (pages s * s.page_size + other * s.oob_size + (i - s.page_size))
                    (ground (arith, o.1)) (ground (arith, o.2))))
            (λ outside.
              if_split (λ (n : ℕ). memset wiped spare 0xFF count n ≡ s.storage n)
                (ltb i s.page_size) _ _
                (λ early.
                  memset-outside wiped spare 0xFF count (other * s.page_size + i)
                    (inl (ground (arith, own)))
                  ∙ memset-outside s.storage (first_row s * s.page_size) 0xFF
                      (s.pages_per_block * s.page_size) (other * s.page_size + i)
                      (ground (arith, f.0, f.3)))
                (λ late.
                  memset-outside wiped spare 0xFF count
                    (pages s * s.page_size + other * s.oob_size + (i - s.page_size))
                    (ground (arith, o.0, o.3))
                  ∙ memset-outside s.storage (first_row s * s.page_size) 0xFF
                      (s.pages_per_block * s.page_size)
                      (pages s * s.page_size + other * s.oob_size + (i - s.page_size))
                      (inr (ground (arith, area)))))

    extent_of-eq : extent_of s ≡ extent_by (is_interleaved s.storage_layout) s
    unfolding extent_of
    extent_of-eq =
        let all = from_block (first_row s) s.pages_per_block (pages s) s.page_buf_size in
        let last = all.3 block_end in
        let first : u64 (first_row s) ≡ first_row s = omega (arith, block_end, g.counted) in
        let scaled = λ (k : ℕ). ap (λ (n : ℕ). u64 (n * k)) first in
        elim (is_interleaved s.storage_layout)
          as (λ b.
            ◌≡◌ {A = Extent}
              (if b
                then record {
                  data_offset = u64 (u64 (first_row s) * s.page_buf_size);
                  data_size = u64 (s.pages_per_block * s.page_buf_size);
                  oob_offset = 0;
                  erase_oob_size = 0;
                }
                else record {
                  data_offset = u64 (u64 (first_row s) * s.page_size);
                  data_size = u64 (s.pages_per_block * s.page_size);
                  oob_offset = u64 (appended_oob_offset s + u64 (u64 (first_row s) * s.oob_size));
                  erase_oob_size = u64 (s.pages_per_block * s.oob_size);
                })
              (extent_by b s)) [
                | true ↦
                    let e0 : u64 (u64 (first_row s) * s.page_buf_size)
                        ≡ first_row s * s.page_buf_size =
                      scaled s.page_buf_size ∙ omega (arith, last, g.fits) in
                    let e1 : u64 (s.pages_per_block * s.page_buf_size)
                        ≡ s.pages_per_block * s.page_buf_size =
                      omega (arith, last, g.fits) in
                    λ i. record {
                      data_offset = e0 i;
                      data_size = e1 i;
                      oob_offset = 0;
                      erase_oob_size = 0;
                    }
                | false ↦
                    let split = buffer_split s g in
                    let e0 : u64 (u64 (first_row s) * s.page_size) ≡ first_row s * s.page_size =
                      scaled s.page_size ∙ omega (arith, last, g.fits, split (first_row s)) in
                    let e1 : u64 (s.pages_per_block * s.page_size)
                        ≡ s.pages_per_block * s.page_size =
                      omega (arith, last, g.fits, split s.pages_per_block) in
                    let o0 : u64 (u64 (first_row s) * s.oob_size) ≡ first_row s * s.oob_size =
                      scaled s.oob_size ∙ omega (arith, last, g.fits, split (first_row s)) in
                    let o1 : u64 (s.pages_per_block * s.oob_size) ≡ s.pages_per_block * s.oob_size =
                      omega (arith, last, g.fits, split s.pages_per_block) in
                    let spare = from_block (first_row s) s.pages_per_block (pages s) s.oob_size in
                    let e2 : u64 (appended_oob_offset s + u64 (u64 (first_row s) * s.oob_size))
                        ≡ pages s * s.page_size + first_row s * s.oob_size =
                      omega
                        (arith, o0, data_area-eq s g, spare.3 block_end, g.fits, split (pages s)) in
                    λ i. record {
                      data_offset = e0 i;
                      data_size = e1 i;
                      oob_offset = e2 i;
                      erase_oob_size = o1 i;
                    }
              ]

    in_block-div : (other : ℕ) → in_block s other ≡ (other / s.pages_per_block == s.nand_block)
    unfolding in_block
    in_block-div other =
        let q = other / s.pages_per_block in
        ground (
          arith,
          div-mul-le_self other s.pages_per_block,
          lt-div-mul-add {a = other} g.some_pages,
          rows_apart q s.nand_block s.pages_per_block,
          rows_apart s.nand_block q s.pages_per_block,
        )

    -- The block lies in the storage, if the storage has room for all pages.
    extent_fits :
        (b : Bool)
        → pages s * s.page_buf_size ≤ s.storage_size
        → (ltb s.storage_size (u64 ((extent_by b s).data_offset + (extent_by b s).data_size))
            ≡ false)
          × (ltb s.storage_size (u64 ((extent_by b s).oob_offset + (extent_by b s).erase_oob_size))
              ≡ false)
    extent_fits true room =
        let all = from_block (first_row s) s.pages_per_block (pages s) s.page_buf_size in
        ground (arith, all.3 block_end, g.fits)
    extent_fits false room =
        let all = from_block (first_row s) s.pages_per_block (pages s) s.page_size in
        let spare = from_block (first_row s) s.pages_per_block (pages s) s.oob_size in
        ground (arith, all.3 block_end, spare.3 block_end, buffer_split s g (pages s), g.fits)

  flush_block-page :
      (backend : Backend D) (s : Nand D) (x : Extent) (blk : Option D) (row i : ℕ)
      → page_of (flush_block backend s x blk).nand row i ≡ page_of s row i
  unfolding flush_block
  flush_block-page backend s x none row i = refl
  flush_block-page backend s x (some blk) row i =
      let first = backend.pwrite blk x.data_offset x.data_size (shift_by x.data_offset s.storage) in
      let P = λ (r : Result D). page_of r.nand row i ≡ page_of s row i in
      if_split P (not first.success) _ _ (λ _. refl)
        (λ _. if_split P (x.erase_oob_size == 0) _ _ (λ _. refl) (λ _. refl))

  -- Erasing a block in range sets every byte of its rows and leaves the other rows alone, also if
  -- the backend refuses to keep it, on a storage with room for all pages.
  pub erase_block-wipe :
      (backend : Backend D) (s : Nand D) (other i : ℕ)
      → IsImage s
      → s.nand_block < s.num_blocks
      → other < pages s
      → i < s.page_size + s.oob_size
      → page_of (erase_block backend s).nand other i
        ≡ (if other / s.pages_per_block == s.nand_block then 0xFF else page_of s other i)
  unfolding erase_block erase_extent
  erase_block-wipe backend s other i v valid k below =
      let g = v.geometry in
      let b = is_interleaved s.storage_layout in
      let x = extent_by b s in
      let fits = extent_fits s g valid b v.room in
      let failed : Result D = record { nand = s; success = false } in
      let erased : erase_block backend s ≡ flush_block backend (wipe s x) x s.blk =
        ap (erase_extent backend s) (extent_of-eq s g valid)
        ∙ ground (arith, v.present, fits.0, fits.1) in
      ap (λ (r : Result D). page_of r.nand other i) erased
      ∙ flush_block-page backend (wipe s x) x s.blk other i
      ∙ wipe-page s g valid b other i k below
      ∙ ap (λ t. if t then 0xFF else page_of s other i) (in_block-div s g valid other)

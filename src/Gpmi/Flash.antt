-- ===== src/Gpmi/Flash.antt =====
-- The backing storage of hw/block/stmp3770_gpmi.c as a flash: an array of rows, of which programming
-- writes one and erasing wipes the rows of a block.
use emu_gii.Prelude.{
  ℕ, ◌+◌, ◌-◌, ◌*◌, ◌^◌, ◌<◌, ◌≤◌, ◌≡◌, ◌⊎◌, refl, sym, ◌∙◌, ap, arith, true, false, not, ltb, leb,
  ◌==◌, ◌||◌, if◌then◌else◌, memcpy, shift_by, memcpy-inside, memcpy-below, Bool-cases, ==→eq, inl,
  inr, Option, some, none, if_split, subst,
}
use emu_gii.Gpmi.Nand.{
  Nand, total_pages, Written, Backend, Offsets, Result, u64, page_offsets, put_page, flush_page,
  store_page_at, store_page, load_page_at, load_page, is_interleaved,
}
use emu_gii.Gpmi.Pages.{
  pages, IsGeometry, address, data_at, oob_at, spare_after_page, spare_end, other_row,
  row_offsets-eq, total_pages-eq,
}

-- The two copies of a page, at a byte of the page.
copies_hit :
    (st buf : ℕ → ℕ) (d o ps oob i : ℕ)
    → d + ps ≤ o
    → i < ps + oob
    → memcpy (memcpy st d buf ps) o (shift_by ps buf) oob (if ltb i ps then d + i else o + (i - ps))
      ≡ buf i
copies_hit st buf d o ps oob i apart below =
    if_split (λ (a : ℕ). memcpy (memcpy st d buf ps) o (shift_by ps buf) oob a ≡ buf i) (ltb i ps)
      (d + i) (o + (i - ps))
      (λ early.
        let inside : i < ps = ground arith in
        memcpy-below (memcpy st d buf ps) o (shift_by ps buf) oob (d + i) (omega arith)
        ∙ memcpy-inside st d buf ps (d + i) (omega arith) (omega arith)
        ∙ ap buf (omega arith))
      (λ late.
        let outside : ps ≤ i = ground arith in
        memcpy-inside (memcpy st d buf ps) o (shift_by ps buf) oob (o + (i - ps)) (omega arith)
          (omega arith)
        ∙ ap buf (omega arith))

copies_miss :
    (st buf : ℕ → ℕ) (d o ps oob a : ℕ)
    → ((a < d) ⊎ (d + ps ≤ a)) × ((a < o) ⊎ (o + oob ≤ a))
    → memcpy (memcpy st d buf ps) o (shift_by ps buf) oob a ≡ st a
copies_miss st buf d o ps oob a apart = ground arith

module _ {D : Type 0} where
  -- The bytes of a row.
  abbrev pub page_of : Nand D → ℕ → ℕ → ℕ
  page_of s row i = s.storage (address s row i)

  -- A geometry whose pages the storage has room for.
  pub record IsImage (s : Nand D) : Type 0 where
    pub geometry : IsGeometry s
    pub present : s.has_storage ≡ true
    pub room : pages s * s.page_buf_size ≤ s.storage_size

  abbrev page_size_of : Nand D → ℕ
  page_size_of s = s.page_size + s.oob_size

  module _ (s : Nand D) (g : IsGeometry s) where
    put_page-page :
        (row other i : ℕ)
        → row < pages s
        → other < pages s
        → i < page_size_of s
        → page_of
            (put_page s (record { data_offset = data_at s row; oob_offset = oob_at s row }))
            other
            i
          ≡ (if row == other then s.page_buf i else page_of s other i)
    unfolding put_page
    put_page-page row other i h k below =
        let st = s.storage in
        let copies =
          memcpy (memcpy st (data_at s row) s.page_buf s.page_size) (oob_at s row)
            (shift_by s.page_size s.page_buf) s.oob_size in
        if_split (λ (x : ℕ). copies (address s other i) ≡ x) (row == other) (s.page_buf i)
          (page_of s other i)
          (λ same.
            subst (λ (q : ℕ). copies (address s q i) ≡ s.page_buf i) (==→eq row other same)
              (copies_hit st s.page_buf (data_at s row) (oob_at s row) s.page_size s.oob_size i
                (spare_after_page s g (is_interleaved s.storage_layout) row h) below))
          (λ apart.
            copies_miss st s.page_buf (data_at s row) (oob_at s row) s.page_size s.oob_size
              (address s other i)
              (other_row s g (is_interleaved s.storage_layout) row other i h k
                (λ e. ground (arith, e, apart)) below))

  page_offsets_by : Nand D → Offsets → Option Offsets
  page_offsets_by s o =
      if leb (total_pages s) s.nand_row
      then none
      else if ltb s.storage_size (u64 (o.data_offset + s.page_size))
          || ltb s.storage_size (u64 (o.oob_offset + s.oob_size))
      then none
      else some o

  -- A row in range lies in the storage.
  pub page_offsets-in_range :
      (s : Nand D)
      → IsImage s
      → s.nand_row < pages s
      → page_offsets s
        ≡ some (record { data_offset = data_at s s.nand_row; oob_offset = oob_at s s.nand_row })
  unfolding page_offsets page_offsets_by
  page_offsets-in_range s v h =
      let g = v.geometry in
      let b = is_interleaved s.storage_layout in
      let o : Offsets = record {
        data_offset = data_at s s.nand_row;
        oob_offset = oob_at s s.nand_row;
      } in
      ap (page_offsets_by s) (row_offsets-eq s g s.nand_row h)
      ∙ in_range (data_at s s.nand_row) (oob_at s s.nand_row) (total_pages-eq s g)
          (spare_after_page s g b s.nand_row h) (spare_end s g b s.nand_row h) g.fits v.room
    where
      in_range :
          (d o : ℕ)
          → total_pages s ≡ pages s
          → d + s.page_size ≤ o
          → o + s.oob_size ≤ pages s * s.page_buf_size
          → pages s * s.page_buf_size < 2 ^ 64
          → pages s * s.page_buf_size ≤ s.storage_size
          → page_offsets_by s (record { data_offset = d; oob_offset = o })
            ≡ some (record { data_offset = d; oob_offset = o })
      in_range d o counted first second fits room = ground (arith, h)

  pub page_offsets-out_of_range :
      (s : Nand D) → IsGeometry s → pages s ≤ s.nand_row → page_offsets s ≡ none
  unfolding page_offsets
  page_offsets-out_of_range s g h = ground (arith, total_pages-eq s g)

  -- What is left of the storage when the backend was asked to keep it.
  flush_page-page :
      (backend : Backend D) (s : Nand D) (o : Offsets) (blk : Option D) (row i : ℕ)
      → page_of (flush_page backend s o blk).nand row i ≡ page_of s row i
  unfolding flush_page
  flush_page-page backend s o none row i = refl
  flush_page-page backend s o (some blk) row i =
      let first = backend.pwrite blk o.data_offset s.page_size s.page_buf in
      let P = λ (r : Result D). page_of r.nand row i ≡ page_of s row i in
      if_split P (not first.success) _ _ (λ _. refl)
        (λ _. if_split P (not (second_write first.backend).success) _ _ (λ _. refl) (λ _. refl))
    where
      second_write : D → Written D
      second_write d = backend.pwrite d o.oob_offset s.oob_size (shift_by s.page_size s.page_buf)

  -- Programming writes the page buffer to the addressed row and leaves every other row alone, also
  -- if the backend refuses to keep it.
  pub store_page-program :
      (backend : Backend D) (s : Nand D) (other i : ℕ)
      → IsImage s
      → s.nand_row < pages s
      → other < pages s
      → i < s.page_size + s.oob_size
      → page_of (store_page backend s).nand other i
        ≡ (if s.nand_row == other then s.page_buf i else page_of s other i)
  unfolding store_page store_page_at
  store_page-program backend s other i v h k below =
      let o : Offsets = record {
        data_offset = data_at s s.nand_row;
        oob_offset = oob_at s s.nand_row;
      } in
      let stored : store_page backend s ≡ flush_page backend (put_page s o) o s.blk =
        ap
          (λ b.
            if b
            then store_page_at backend s (page_offsets s)
            else record { nand = s; success = false })
          v.present
        ∙ ap (store_page_at backend s) (page_offsets-in_range s v h) in
      ap (λ (r : Result D). page_of r.nand other i) stored
      ∙ flush_page-page backend (put_page s o) o s.blk other i
      ∙ put_page-page s v.geometry s.nand_row other i h k below

  -- Reading fills the page buffer with the addressed row, and succeeds.
  pub load_page-read :
      (s : Nand D) (i : ℕ)
      → IsImage s
      → s.nand_row < pages s
      → i < s.page_size + s.oob_size
      → ((load_page s).success ≡ true)
        × ((load_page s).nand.page_buf i ≡ page_of s s.nand_row i)
        × ((load_page s).nand.storage ≡ s.storage)
  unfolding load_page load_page_at
  load_page-read s i v h below =
      let o : Offsets = record {
        data_offset = data_at s s.nand_row;
        oob_offset = oob_at s s.nand_row;
      } in
      let loaded : load_page s ≡ load_page_at s (some o) =
        ap
          (λ b. if b then load_page_at s (page_offsets s) else record { nand = s; success = false })
          v.present
        ∙ ap (load_page_at s) (page_offsets-in_range s v h) in
      (
        ap (λ (r : Result D). r.success) loaded,
        ap (λ (r : Result D). r.nand.page_buf i) loaded ∙ copied o.data_offset o.oob_offset,
        ap (λ (r : Result D). r.nand.storage) loaded,
      )
    where
      copied :
          (d o : ℕ)
          → memcpy
              (memcpy s.page_buf 0 (shift_by d s.storage) s.page_size)
              s.page_size
              (shift_by o s.storage)
              s.oob_size
              i
            ≡ s.storage (if ltb i s.page_size then d + i else o + (i - s.page_size))
      copied d o =
          if_split
            (λ (a : ℕ).
              memcpy (memcpy s.page_buf 0 (shift_by d s.storage) s.page_size) s.page_size
                (shift_by o s.storage) s.oob_size i
              ≡ s.storage a)
            (ltb i s.page_size) (d + i) (o + (i - s.page_size))
            (λ early.
              let inside : i < s.page_size = ground arith in
              memcpy-below (memcpy s.page_buf 0 (shift_by d s.storage) s.page_size) s.page_size
                (shift_by o s.storage) s.oob_size i inside
              ∙ memcpy-inside s.page_buf 0 (shift_by d s.storage) s.page_size i (omega arith)
                  (omega arith)
              ∙ ap s.storage (omega arith))
            (λ late.
              let outside : s.page_size ≤ i = ground arith in
              memcpy-inside (memcpy s.page_buf 0 (shift_by d s.storage) s.page_size) s.page_size
                (shift_by o s.storage) s.oob_size i outside (omega arith))

  -- A row out of range is neither read nor programmed.
  out_of_range :
      (backend : Backend D) (s : Nand D)
      → IsGeometry s
      → pages s ≤ s.nand_row
      → (store_page backend s ≡ record { nand = s; success = false })
        × (load_page s ≡ record { nand = s; success = false })
  unfolding store_page store_page_at load_page load_page_at
  out_of_range backend s g h =
      let nowhere = page_offsets-out_of_range s g h in
      (
        if_split (λ (r : Result D). r ≡ record { nand = s; success = false }) s.has_storage _ _
            (λ _. ap (store_page_at backend s) nowhere) (λ _. refl),
        if_split (λ (r : Result D). r ≡ record { nand = s; success = false }) s.has_storage _ _
            (λ _. ap (load_page_at s) nowhere) (λ _. refl),
      )

  -- With a geometry whose sizes fit their types, what `page_offsets` returns is inside the
  -- storage, whatever the size of the storage: the page and its spare bytes both end within it,
  -- and do not overlap.
  pub page_offsets-bounds :
      (s : Nand D) (o : Offsets)
      → IsGeometry s
      → page_offsets s ≡ some o
      → (o.data_offset + s.page_size ≤ o.oob_offset) × (o.oob_offset + s.oob_size ≤ s.storage_size)
  unfolding page_offsets page_offsets_by
  page_offsets-bounds s o g found = elim (Bool-cases (leb (total_pages s) s.nand_row)) [
    | inl outside ↦ absurd (ground (arith, outside, found))
    | inr inside ↦
        let b = is_interleaved s.storage_layout in
        let h : s.nand_row < pages s = ground (arith, inside, total_pages-eq s g) in
        bounded (data_at s s.nand_row) (oob_at s s.nand_row) (spare_after_page s g b s.nand_row h)
          (spare_end s g b s.nand_row h) g.fits
          (sym (ap (page_offsets_by s) (row_offsets-eq s g s.nand_row h)) ∙ found)
  ]
    where
      bounded :
          (d e : ℕ)
          → d + s.page_size ≤ e
          → e + s.oob_size ≤ pages s * s.page_buf_size
          → pages s * s.page_buf_size < 2 ^ 64
          → page_offsets_by s (record { data_offset = d; oob_offset = e }) ≡ some o
          → (o.data_offset + s.page_size ≤ o.oob_offset)
            × (o.oob_offset + s.oob_size ≤ s.storage_size)
      bounded d e first second fits result = ground (arith, result)

-- ===== src/Gpmi/Pages.antt =====
-- Where the pages of the flash lie in the backing storage of hw/block/stmp3770_gpmi.c.
use emu_gii.Prelude.{
  ℕ, ◌+◌, ◌-◌, ◌*◌, ◌^◌, ◌<◌, ◌≤◌, ◌≡◌, ◌≢◌, ◌⊎◌, ◌∙◌, ap, arith, Bool, true, false, ltb,
  if◌then◌else◌,
}
use native.Mathlib.Nat.{mul-add}
use emu_gii.Gpmi.Nand.{
  data_area_size, appended_oob_offset, Nand, Offsets, u64, total_pages, is_interleaved, row_offsets,
}

pub rows_apart : (r q k : ℕ) → r < q → r * k + k ≤ q * k
rows_apart r q k h = grind arith

module _ {D : Type 0} where
  abbrev pub pages : Nand D → ℕ
  pages s = s.pages_per_block * s.num_blocks

  -- A page buffer has room for a page and its spare bytes, its size has 32 bits, and the pages
  -- fit a size of 64 bits.
  pub record IsGeometry (s : Nand D) : Type 0 where
    pub some_pages : 0 < s.pages_per_block
    pub word : s.page_buf_size < 2 ^ 32
    pub buffer : s.page_buf_size ≡ s.page_size + s.oob_size
    pub counted : pages s < 2 ^ 64
    pub fits : pages s * s.page_buf_size < 2 ^ 64

  -- Where a row's page starts, and where its spare bytes do, by whether they are interleaved.
  abbrev pub data_by : Bool → Nand D → ℕ → ℕ
  data_by interleaved s row = if interleaved then row * s.page_buf_size else row * s.page_size

  abbrev pub oob_by : Bool → Nand D → ℕ → ℕ
  oob_by interleaved s row =
      if interleaved
      then row * s.page_buf_size + s.page_size
      else pages s * s.page_size + row * s.oob_size

  abbrev pub data_at : Nand D → ℕ → ℕ
  data_at s row = data_by (is_interleaved s.storage_layout) s row

  abbrev pub oob_at : Nand D → ℕ → ℕ
  oob_at s row = oob_by (is_interleaved s.storage_layout) s row

  -- Byte `i` of a row, the spare bytes after those of the page.
  abbrev pub address_by : Bool → Nand D → ℕ → ℕ → ℕ
  address_by interleaved s row i =
      if ltb i s.page_size
      then data_by interleaved s row + i
      else oob_by interleaved s row + (i - s.page_size)

  abbrev pub address : Nand D → ℕ → ℕ → ℕ
  address s row i = address_by (is_interleaved s.storage_layout) s row i

  module _ (s : Nand D) (g : IsGeometry s) where
    -- The bytes of the pages up to a row.
    pub row_bytes : (row : ℕ) → row < pages s → row * s.page_buf_size + s.page_buf_size < 2 ^ 64
    row_bytes row h = omega (arith, rows_apart row (pages s) s.page_buf_size h, g.fits)

    pub buffer_split : (n : ℕ) → n * s.page_buf_size ≡ n * s.page_size + n * s.oob_size
    buffer_split n = ap (λ (k : ℕ). n * k) g.buffer ∙ mul-add n s.page_size s.oob_size

    pub total_pages-eq : total_pages s ≡ pages s
    total_pages-eq = omega (arith, g.counted)

    pub data_area-eq : data_area_size s ≡ pages s * s.page_size
    data_area-eq =
        ap (λ (k : ℕ). u64 (k * s.page_size)) total_pages-eq
        ∙ omega (arith, buffer_split (pages s), g.fits)

    interleaved_offsets :
        (row : ℕ)
        → row < pages s
        → (u64 (row * s.page_buf_size) ≡ row * s.page_buf_size)
          × (u64 (u64 (row * s.page_buf_size) + s.page_size) ≡ row * s.page_buf_size + s.page_size)
    interleaved_offsets row h = omega (arith, row_bytes row h, g.buffer)

    appended_offsets :
        (row : ℕ)
        → row < pages s
        → (u64 (row * s.page_size) ≡ row * s.page_size)
          × (u64 (appended_oob_offset s + u64 (row * s.oob_size))
              ≡ pages s * s.page_size + row * s.oob_size)
    appended_offsets row h = omega (
      arith,
      data_area-eq,
      buffer_split (pages s),
      buffer_split row,
      row_bytes row h,
      g.fits,
      rows_apart row (pages s) s.oob_size h,
    )

    pub row_offsets-eq :
        (row : ℕ)
        → row < pages s
        → row_offsets s row ≡ record { data_offset = data_at s row; oob_offset = oob_at s row }
    unfolding row_offsets
    row_offsets-eq row h =
        elim (is_interleaved s.storage_layout)
          as (λ b.
            ◌≡◌ {A = Offsets}
              (if b
                then record {
                  data_offset = u64 (row * s.page_buf_size);
                  oob_offset = u64 (u64 (row * s.page_buf_size) + s.page_size);
                }
                else record {
                  data_offset = u64 (row * s.page_size);
                  oob_offset = u64 (appended_oob_offset s + u64 (row * s.oob_size));
                })
              (record {
                data_offset = if b then row * s.page_buf_size else row * s.page_size;
                oob_offset =
                    if b
                    then row * s.page_buf_size + s.page_size
                    else pages s * s.page_size + row * s.oob_size;
              })) [
                | true ↦
                    let e = interleaved_offsets row h in
                    λ i. record { data_offset = e.0 i; oob_offset = e.1 i }
                | false ↦
                    let e = appended_offsets row h in
                    λ i. record { data_offset = e.0 i; oob_offset = e.1 i }
              ]

    -- The page comes before its spare bytes.
    pub spare_after_page :
        (b : Bool) (row : ℕ) → row < pages s → data_by b s row + s.page_size ≤ oob_by b s row
    spare_after_page true row h = omega arith
    spare_after_page false row h = omega (arith, rows_apart row (pages s) s.page_size h)

    pub spare_end :
        (b : Bool) (row : ℕ)
        → row < pages s
        → oob_by b s row + s.oob_size ≤ pages s * s.page_buf_size
    spare_end true row h = omega (arith, rows_apart row (pages s) s.page_buf_size h, g.buffer)
    spare_end false row h =
        omega (arith, rows_apart row (pages s) s.oob_size h, buffer_split (pages s))

    -- A byte of one row is in neither part of another.
    pub other_row :
        (b : Bool) (row other i : ℕ)
        → row < pages s
        → other < pages s
        → row ≢ other
        → i < s.page_size + s.oob_size
        → ((address_by b s other i < data_by b s row)
            ⊎ (data_by b s row + s.page_size ≤ address_by b s other i))
          × ((address_by b s other i < oob_by b s row)
              ⊎ (oob_by b s row + s.oob_size ≤ address_by b s other i))
    other_row true row other i h k apart below = ground (
      arith,
      rows_apart row other s.page_buf_size,
      rows_apart other row s.page_buf_size,
      g.buffer,
    )
    other_row false row other i h k apart below = ground (
      arith,
      rows_apart row other s.page_size,
      rows_apart other row s.page_size,
      rows_apart row other s.oob_size,
      rows_apart other row s.oob_size,
      rows_apart row (pages s) s.page_size h,
      rows_apart other (pages s) s.page_size k,
    )

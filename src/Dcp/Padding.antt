-- ===== src/Dcp/Padding.antt =====
-- The padding of SHA-1, and how the final step of hw/misc/stmp3770_dcp.c lays it out.
use emu_gii.Prelude.{
  put_byte, shift_by, ℕ, zero, suc, ◌+◌, ◌-◌, ◌*◌, ◌/◌, ◌%◌, ◌<◌, ◌≤◌, ◌≡◌, sym, ◌∙◌, ap, arith,
  ltb, ◌==◌, if◌then◌else◌, Bool-cases, if_split, inl, inr, subst,
}
use emu_gii.Reg.{u32, ◌>>>◌}
use emu_gii.Dcp.Hash.{put_length}
use emu_gii.Dcp.Blocks.{Agree}

-- Byte `j` of a 32-bit word, the most significant first.
abbrev pub be_byte : ℕ → ℕ → ℕ
be_byte x j = x >>> (24 - 8 * j) % 256

-- The blocks of a padded message of `n` bytes.
abbrev pub block_count : ℕ → ℕ
block_count n = (n + 8) / 64 + 1

-- The padding of SHA-1: the byte 0x80, zeros, and the length in bits at the end of the last
-- block, of which the low 32 bits are kept.
abbrev pub padded : (ℕ → ℕ) → ℕ → ℕ → ℕ
padded m n i =
    if ltb i n
    then m i
    else if i == n
    then 0x80
    else if ltb (i + 4) (64 * block_count n)
    then 0
    else be_byte (u32 (n * 8)) (i + 4 - 64 * block_count n)

length-at :
    (buf : ℕ → ℕ) (at bits i : ℕ)
    → at ≤ 56
    → i < 64
    → put_length buf at bits i
      ≡ (if ltb i at then buf i else if ltb i 60 then 0 else be_byte bits (i - 60))
unfolding put_length
length-at buf at bits i room below = elim (Bool-cases (ltb i 60)) [
  | inl early ↦ ground arith
  | inr late ↦ subst Laid (sym (in_place i (ground arith))) (last (i - 60) (ground arith))
]
  where
    Laid : ℕ → Type 0
    Laid k =
        put_length buf at bits k
        ≡ (if ltb k at then buf k else if ltb k 60 then 0 else be_byte bits (k - 60))

    in_place : (k : ℕ) → 60 ≤ k → k ≡ 60 + (k - 60)
    in_place k h = omega arith

    last : (j : ℕ) → j < 4 → Laid (60 + j)
    last zero h = ground arith
    last (suc zero) h = ground arith
    last (suc (suc zero)) h = ground arith
    last (suc (suc (suc zero))) h = ground arith
    last (suc (suc (suc (suc j)))) h = absurd (omega arith)

module _ (m : ℕ → ℕ) (n : ℕ) where
  pub padded-message : (i : ℕ) → i < n → padded m n i ≡ m i
  padded-message i h = ground arith

  padded-mark : (i : ℕ) → i ≡ n → padded m n i ≡ 0x80
  padded-mark i h = ground arith

  pub padded-zero : (i : ℕ) → n < i → i + 4 < 64 * block_count n → padded m n i ≡ 0
  padded-zero i h k = ground arith

  padded-length :
      (i j : ℕ) → n < i → i + 4 ≡ 64 * block_count n + j → padded m n i ≡ be_byte (u32 (n * 8)) j
  padded-length i j h e =
      skip_two (be_byte (u32 (n * 8)) (i + 4 - 64 * block_count n))
      ∙ ap (be_byte (u32 (n * 8))) (omega arith)
    where
      skip_two :
          (x : ℕ)
          → (if ltb i n
              then m i
              else if i == n
              then 0x80
              else if ltb (i + 4) (64 * block_count n)
              then 0
              else x)
            ≡ x
      skip_two x = ground arith

  -- The last block, of which `at` bytes are filled.
  pub last_block :
      (buf : ℕ → ℕ) (p at bits : ℕ)
      → at ≤ 56
      → 64 * block_count n ≡ 64 * p + 64
      → n < 64 * p + at
      → bits ≡ u32 (n * 8)
      → Agree at buf (shift_by (64 * p) (padded m n))
      → Agree 64 (put_length buf at bits) (shift_by (64 * p) (padded m n))
  last_block buf p at bits room end behind same agree i below =
      length-at buf at bits i room below
      ∙ if_split (λ (x : ℕ). x ≡ padded m n (64 * p + i)) (ltb i at) (buf i) _
          (λ early. agree i (ground arith))
          (λ late.
            if_split (λ (x : ℕ). x ≡ padded m n (64 * p + i)) (ltb i 60) 0 (be_byte bits (i - 60))
              (λ zeros. sym (padded-zero (64 * p + i) (ground arith) (ground arith)))
              (λ tail.
                ap (λ (x : ℕ). be_byte x (i - 60)) same
                ∙ sym (padded-length (64 * p + i) (i - 60) (ground arith) (ground arith))))

  -- The message and the byte after it.
  pub marked :
      (buf : ℕ → ℕ) (i : ℕ)
      → ((k : ℕ) → k < n % 64 → buf k ≡ m (64 * (n / 64) + k))
      → i < n % 64 + 1
      → put_byte buf (n % 64) 0x80 i ≡ padded m n (64 * (n / 64) + i)
  marked buf i tail below =
      if_split (λ (x : ℕ). x ≡ padded m n (64 * (n / 64) + i)) (i == n % 64) 0x80 (buf i)
        (λ here. sym (padded-mark (64 * (n / 64) + i) (ground arith)))
        (λ before.
          let inside : i < n % 64 = ground arith in
          tail i inside ∙ sym (padded-message (64 * (n / 64) + i) (omega arith)))

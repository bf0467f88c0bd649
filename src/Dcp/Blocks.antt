-- ===== src/Dcp/Blocks.antt =====
-- The blocks that the hash of hw/misc/stmp3770_dcp.c takes from a stream of bytes.
use emu_gii.Prelude.{
  shift_by, ℕ, zero, suc, ◌+◌, ◌*◌, ◌<◌, ◌≡◌, refl, sym, ◌∙◌, ap, arith, List, set, replicate,
  for_below,
}
use emu_gii.Dcp.Host.{BigEndian}
use emu_gii.Dcp.Sha1.{sha1_block, sha1_compress, sha1_schedule, sha1_expand}
use emu_gii.Dcp.Hash.{whole_blocks}

-- Two arrays agree on their first `n` bytes.
abbrev pub Agree : ℕ → (ℕ → ℕ) → (ℕ → ℕ) → Type 0
Agree n f g = (i : ℕ) → i < n → f i ≡ g i

for_below_cong :
    {S : Type 0} (n : ℕ) (body other : ℕ → S → S) (s : S)
    → ((i : ℕ) (t : S) → i < n → body i t ≡ other i t)
    → for_below n body s ≡ for_below n other s
unfolding for_below
for_below_cong zero body other s same = refl
for_below_cong (suc n) body other s same =
    same n (for_below n body s) (omega arith)
    ∙ ap (other n) (for_below_cong n body other s (λ i t h. same i t (omega arith)))

module _ (host : BigEndian) where
  schedule_cong : (f g : ℕ → ℕ) → Agree 64 f g → sha1_schedule host f ≡ sha1_schedule host g
  unfolding sha1_schedule
  schedule_cong f g same = ap (for_below 64 (λ k w. sha1_expand (16 + k) w)) (
      for_below_cong 16 (λ i w. set w i (host.ldl_be_p f (4 * i)))
        (λ i w. set w i (host.ldl_be_p g (4 * i))) (replicate 80 0)
        (λ i w h.
          ap (set w i)
            (host.ldl_be_p_cong f g (4 * i) (λ k below. same (4 * i + k) (omega arith)))))

  pub sha1_block_cong :
      (h : List ℕ) (f g : ℕ → ℕ) → Agree 64 f g → sha1_block host h f ≡ sha1_block host h g
  unfolding sha1_block
  sha1_block_cong h f g same = ap (sha1_compress h) (schedule_cong f g same)

  pub whole_blocks_cong :
      (n : ℕ) (h : List ℕ) (f g : ℕ → ℕ)
      → Agree (64 * n) f g
      → whole_blocks host n h f ≡ whole_blocks host n h g
  unfolding whole_blocks
  whole_blocks_cong zero h f g same = refl
  whole_blocks_cong (suc n) h f g same =
      ap (λ t. whole_blocks host n t (shift_by 64 f))
        (sha1_block_cong h f g (λ i below. same i (omega arith)))
      ∙ whole_blocks_cong n (sha1_block host h g) (shift_by 64 f) (shift_by 64 g)
          (λ i below. same (64 + i) (omega arith))

  pub whole_blocks_count :
      (m n : ℕ) (h : List ℕ) (f : ℕ → ℕ) → m ≡ n → whole_blocks host m h f ≡ whole_blocks host n h f
  whole_blocks_count m n h f e = ap (λ k. whole_blocks host k h f) e

  -- First `m` blocks, then `n` more.
  pub whole_blocks-add :
      (m n : ℕ) (h : List ℕ) (f : ℕ → ℕ)
      → whole_blocks host (m + n) h f
        ≡ whole_blocks host n (whole_blocks host m h f) (shift_by (64 * m) f)
  unfolding whole_blocks
  whole_blocks-add zero n h f =
      whole_blocks_count (0 + n) n h f (omega arith)
      ∙ whole_blocks_cong n h f (shift_by (64 * 0) f) (λ i below. ap f (omega arith))
  whole_blocks-add (suc m) n h f =
      whole_blocks_count (suc m + n) (suc (m + n)) h f (omega arith)
      ∙ whole_blocks-add m n (sha1_block host h f) (shift_by 64 f)
      ∙ whole_blocks_cong n (whole_blocks host m (sha1_block host h f) (shift_by 64 f))
          (shift_by (64 * m) (shift_by 64 f)) (shift_by (64 * suc m) f)
          (λ i below. ap f (omega arith))

  -- One block more.
  pub sha1_block-next :
      (p : ℕ) (h start : List ℕ) (block f : ℕ → ℕ)
      → h ≡ whole_blocks host p start f
      → Agree 64 block (shift_by (64 * p) f)
      → sha1_block host h block ≡ whole_blocks host (p + 1) start f
  unfolding whole_blocks
  sha1_block-next p h start block f digest agree =
      ap (λ t. sha1_block host t block) digest
      ∙ sha1_block_cong (whole_blocks host p start f) block (shift_by (64 * p) f) agree
      ∙ sym (whole_blocks-add p 1 start f)

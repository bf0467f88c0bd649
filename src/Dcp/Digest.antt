-- ===== src/Dcp/Digest.antt =====
-- The digest that hw/misc/stmp3770_dcp.c gives, against the definition of SHA-1 on a whole message.
use emu_gii.Prelude.{
  memset, put_byte, shift_by, ℕ, ◌+◌, ◌-◌, ◌*◌, ◌/◌, ◌%◌, ◌^◌, ◌≤◌, min, bit_and, ◌≡◌, refl, sym,
  ◌∙◌, arith, List, [], ◌∷◌, leb, ltb, ◌==◌, if◌then◌else◌, ◌&&◌, Bool, if_split, true, false,
  subst,
}
use emu_gii.Bits.{bit_and_mask}
use emu_gii.Reg.{u32}
use emu_gii.Dcp.Host.{BigEndian}
use emu_gii.Dcp.Sha1.{sha1_block}
use emu_gii.Dcp.Hash.{
  HashState, absorb, fill_buffer, whole_blocks, flush_full, put_length, sha1_update, sha1_init,
  sha1_final,
}
use emu_gii.Dcp.Blocks.{sha1_block-next, whole_blocks_cong, whole_blocks_count}
use emu_gii.Dcp.Padding.{block_count, padded, padded-message, padded-zero, last_block, marked}
use emu_gii.Dcp.Stream.{Holds, update-Holds}

module _ (host : BigEndian) (start : List ℕ) (m : ℕ → ℕ) (n : ℕ) (s : HashState) where
  -- The digest of the whole blocks of the message is that of the padded message so far.
  before_padding : Holds host start m n s → s.sha_h ≡ whole_blocks host (n / 64) start (padded m n)
  before_padding held =
      held.digest
      ∙ whole_blocks_cong host (n / 64) start m (padded m n)
          (λ i below. sym (padded-message m n i (omega arith)))

  -- The end of `sha1_final`, by whether the length has room in the block that is begun.
  closing :
      (full : Bool) (bits : ℕ)
      → ltb 56 (n % 64 + 1) ≡ full
      → bits ≡ u32 (n * 8)
      → Holds host start m n s
      → let t = record s { hash_buf = put_byte s.hash_buf (n % 64) 0x80 } in
        let u = if full then flush_full host t (n % 64 + 1) else t in
        sha1_block host u.sha_h (put_length u.hash_buf (if full then 0 else n % 64 + 1) bits)
        ≡ whole_blocks host (block_count n) start (padded m n)
  unfolding flush_full
  closing true bits full same held =
      let b = n % 64 in
      let marked_buf = put_byte s.hash_buf b 0x80 in
      let buf = memset marked_buf (b + 1) 0 (64 - (b + 1)) in
      let late : 56 ≤ b = ground arith in
      sha1_block-next host (n / 64 + 1) (sha1_block host s.sha_h buf) start (put_length buf 0 bits)
        (padded m n)
        (sha1_block-next host (n / 64) s.sha_h start buf (padded m n) (before_padding held)
          (λ i below.
            if_split (λ (x : ℕ). x ≡ padded m n (64 * (n / 64) + i))
              (leb (b + 1) i && ltb i (b + 1 + (64 - (b + 1)))) 0 (marked_buf i)
              (λ zeros. sym (padded-zero m n (64 * (n / 64) + i) (ground arith) (ground arith)))
              (λ early. marked m n s.hash_buf i held.tail (ground arith))))
        (last_block m n buf (n / 64 + 1) 0 bits (omega arith) (omega arith) (omega arith) same
          (λ i below. absurd (omega arith)))
      ∙ whole_blocks_count host (n / 64 + 1 + 1) (block_count n) start (padded m n) (omega arith)
  closing false bits full same held =
      let b = n % 64 in
      let early : b + 1 ≤ 56 = ground arith in
      sha1_block-next host (n / 64) s.sha_h start
        (put_length (put_byte s.hash_buf b 0x80) (b + 1) bits) (padded m n) (before_padding held)
        (last_block m n (put_byte s.hash_buf b 0x80) (n / 64) (b + 1) bits early (omega arith)
          (omega arith) same (λ i below. marked m n s.hash_buf i held.tail below))
      ∙ whole_blocks_count host (n / 64 + 1) (block_count n) start (padded m n) (omega arith)

  pub sha1_final-digest :
      s.hash_len ≡ n % 2 ^ 32
      → Holds host start m n s
      → (sha1_final host s).sha_h ≡ whole_blocks host (block_count n) start (padded m n)
  unfolding sha1_final
  sha1_final-digest counted held =
      let bits = u32 (s.hash_len * 8) in
      let buffered : n % 64 ≡ bit_and s.hash_len 63 =
        omega (arith, counted, bit_and_mask 6 s.hash_len) in
      subst
        (λ (b : ℕ).
          let t = record s { hash_buf = put_byte s.hash_buf b 0x80 } in
          let full = ltb 56 (b + 1) in
          let u = if full then flush_full host t (b + 1) else t in
          sha1_block host u.sha_h (put_length u.hash_buf (if full then 0 else b + 1) bits)
          ≡ whole_blocks host (block_count n) start (padded m n))
        buffered (closing (ltb 56 (n % 64 + 1)) bits refl (omega arith) held)

-- Updates with consecutive pieces of the message, by their lengths.
abbrev pub updates : BigEndian → (ℕ → ℕ) → ℕ → List ℕ → HashState → HashState
updates host m n [] s = s
updates host m n (len ∷ more) s =
    updates host m (n + len) more (sha1_update host s (shift_by n m) len)

abbrev pub total : List ℕ → ℕ
total [] = 0
total (len ∷ more) = len + total more

-- SHA-1 of the first `n` bytes of a message: its padding, cut into blocks.
abbrev pub sha1_reference : BigEndian → (ℕ → ℕ) → ℕ → List ℕ
sha1_reference host m n =
    whole_blocks host (block_count n)
      (0x6745_2301 ∷ 0xefcd_ab89 ∷ 0x98ba_dcfe ∷ 0x1032_5476 ∷ 0xc3d2_e1f0 ∷ []) (padded m n)

absorb-len :
    (host : BigEndian) (s : HashState) (source : ℕ → ℕ) (len : ℕ)
    → (absorb host s source len).hash_len ≡ s.hash_len
unfolding absorb
absorb-len host s source len =
    if_split (λ (t : HashState). t.hash_len ≡ s.hash_len) (len % 64 == 0) _ _ (λ _. refl)
      (λ _. refl)

fill_buffer-len :
    (host : BigEndian) (s : HashState) (b : ℕ) (source : ℕ → ℕ) (fill : ℕ)
    → (fill_buffer host s b source fill).hash_len ≡ s.hash_len
unfolding fill_buffer
fill_buffer-len host s b source fill =
    if_split (λ (t : HashState). t.hash_len ≡ s.hash_len) (b + fill == 64) _ _ (λ _. refl)
      (λ _. refl)

sha1_update-len :
    (host : BigEndian) (s : HashState) (source : ℕ → ℕ) (len : ℕ)
    → (sha1_update host s source len).hash_len ≡ u32 (s.hash_len + len)
unfolding sha1_update
sha1_update-len host s source len =
    let t = record s { hash_len = u32 (s.hash_len + len) } in
    if_split (λ (u : HashState). u.hash_len ≡ t.hash_len) (bit_and s.hash_len 63 == 0) _ _
      (λ _. absorb-len host t source len)
      (λ _.
        let b = bit_and s.hash_len 63 in
        let fill = min (64 - b) len in
        absorb-len host (fill_buffer host t b source fill) (shift_by fill source) (len - fill)
        ∙ fill_buffer-len host t b source fill)

updates-digest :
    (host : BigEndian) (m : ℕ → ℕ) (start : List ℕ) (n : ℕ) (lengths : List ℕ) (s : HashState)
    → s.hash_len ≡ n % 2 ^ 32
    → Holds host start m n s
    → (sha1_final host (updates host m n lengths s)).sha_h
      ≡ whole_blocks host (block_count (n + total lengths)) start (padded m (n + total lengths))
updates-digest host m start n [] s counted held =
    subst
      (λ (k : ℕ). (sha1_final host s).sha_h ≡ whole_blocks host (block_count k) start (padded m k))
      (omega arith) (sha1_final-digest host start m n s counted held)
updates-digest host m start n (len ∷ more) s counted held =
    subst
      (λ (k : ℕ).
        (sha1_final host (updates host m n (len ∷ more) s)).sha_h
        ≡ whole_blocks host (block_count k) start (padded m k))
      (omega arith)
      (updates-digest host m start (n + len) more (sha1_update host s (shift_by n m) len)
        (sha1_update-len host s (shift_by n m) len ∙ omega (arith, counted))
        (update-Holds host start m n s (shift_by n m) len counted held (λ i below. refl)))

-- However a message is cut into updates, after an initialisation the final step leaves the SHA-1
-- digest of the whole message: the blocks of its padding, which ends in the low 32 bits of the
-- message's length in bits.
pub sha1_digest :
    (host : BigEndian) (m : ℕ → ℕ) (lengths : List ℕ) (s : HashState)
    → (sha1_final host (updates host m 0 lengths (sha1_init s))).sha_h
      ≡ sha1_reference host m (total lengths)
unfolding sha1_init whole_blocks
sha1_digest host m lengths s =
    let all : 0 + total lengths ≡ total lengths = omega arith in
    subst
      (λ (k : ℕ).
        (sha1_final host (updates host m 0 lengths (sha1_init s))).sha_h ≡ sha1_reference host m k)
      all
      (updates-digest host m (sha1_init s).sha_h 0 lengths (sha1_init s) refl
        (record { digest = refl; tail = λ i below. absurd (omega arith) }))

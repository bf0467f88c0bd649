-- ===== src/Dcp/Stream.antt =====
-- Updates of the hash engine of hw/misc/stmp3770_dcp.c, and the message that they are about.
use emu_gii.Prelude.{
  memcpy, shift_by, memcpy-inside, memcpy-below, ℕ, ◌⊎◌, ◌+◌, ◌-◌, ◌*◌, ◌/◌, ◌%◌, ◌^◌, ◌<◌, ◌≤◌,
  min, bit_and, ◌≡◌, sym, ◌∙◌, ap, arith, List, ltb, ◌==◌, if◌then◌else◌, if_split, Bool-cases,
  ==→eq, inl, inr, subst,
}
use emu_gii.Bits.{bit_and_mask}
use emu_gii.Reg.{u32}
use emu_gii.Dcp.Host.{BigEndian}
use emu_gii.Dcp.Sha1.{sha1_block}
use emu_gii.Dcp.Hash.{HashState, whole_blocks, absorb, fill_buffer, sha1_update}
use emu_gii.Dcp.Blocks.{
  Agree, sha1_block-next, whole_blocks_cong, whole_blocks-add, whole_blocks_count,
}

module _ (host : BigEndian) (start : List ℕ) (m : ℕ → ℕ) where
  -- The digest and the buffer are those of the first `n` bytes of the message.
  pub record Holds (n : ℕ) (s : HashState) : Type 0 where
    pub digest : s.sha_h ≡ whole_blocks host (n / 64) start m
    pub tail : (i : ℕ) → i < n % 64 → s.hash_buf i ≡ m (64 * (n / 64) + i)

  -- With an empty buffer, after `q` blocks.
  absorb-Holds :
      (q : ℕ) (s : HashState) (source : ℕ → ℕ) (len : ℕ)
      → s.sha_h ≡ whole_blocks host q start m
      → Agree len source (shift_by (64 * q) m)
      → Holds (64 * q + len) (absorb host s source len)
  unfolding absorb
  absorb-Holds q s source len digest agree =
      let now : whole_blocks host (len / 64) s.sha_h source
          ≡ whole_blocks host ((64 * q + len) / 64) start m =
        ap (λ h. whole_blocks host (len / 64) h source) digest
        ∙ whole_blocks_cong host (len / 64) (whole_blocks host q start m) source
            (shift_by (64 * q) m) (λ i below. agree i (omega arith))
        ∙ sym (whole_blocks-add host q (len / 64) start m)
        ∙ whole_blocks_count host (q + len / 64) ((64 * q + len) / 64) start m (omega arith) in
      let done = record s { sha_h = whole_blocks host (len / 64) s.sha_h source } in
      if_split (Holds (64 * q + len)) (len % 64 == 0) done _
        (λ none_left. record {
          digest = now;
          tail = λ i below. absurd (no_rest (==→eq (len % 64) 0 none_left) below);
        })
        (λ some_left. record {
          digest = now;
          tail = λ i below.
              memcpy-inside s.hash_buf 0 (shift_by (64 * (len / 64)) source) (len % 64) i
                (omega arith) (omega arith)
              ∙ agree (64 * (len / 64) + (i - 0)) (omega arith)
              ∙ ap m (omega arith);
        })
    where
      no_rest : {i : ℕ} → len % 64 ≡ 0 → i < (64 * q + len) % 64 → ⊥
      no_rest e h = omega arith

  absorb_nothing :
      (n : ℕ) (s : HashState) (source : ℕ → ℕ) (k : ℕ)
      → k ≡ 0
      → Holds n s
      → Holds n (absorb host s source k)
  unfolding absorb whole_blocks
  absorb_nothing n s source k e h = subst (λ (j : ℕ). Holds n (absorb host s source j)) (sym e) h

  -- The block that is completed in the buffer.
  filled_block :
      (n : ℕ) (s : HashState) (source : ℕ → ℕ) (fill : ℕ)
      → Holds n s
      → n % 64 + fill ≡ 64
      → Agree fill source (shift_by n m)
      → sha1_block host s.sha_h (memcpy s.hash_buf (n % 64) source fill)
        ≡ whole_blocks host (n / 64 + 1) start m
  filled_block n s source fill h full agree =
      sha1_block-next host (n / 64) s.sha_h start (memcpy s.hash_buf (n % 64) source fill) m
        h.digest in_buffer
    where
      in_buffer : Agree 64 (memcpy s.hash_buf (n % 64) source fill) (shift_by (64 * (n / 64)) m)
      in_buffer i below = elim (Bool-cases (ltb i (n % 64))) [
        | inl old ↦
            memcpy-below s.hash_buf (n % 64) source fill i (ground arith) ∙ h.tail i (ground arith)
        | inr new ↦
            let late : n % 64 ≤ i = ground arith in
            memcpy-inside s.hash_buf (n % 64) source fill i late (omega arith)
            ∙ agree (i - n % 64) (omega arith)
            ∙ ap m (omega arith)
      ]

  -- An update that does not complete the block in the buffer.
  joined_buffer :
      (n : ℕ) (s : HashState) (source : ℕ → ℕ) (len : ℕ)
      → Holds n s
      → n % 64 + len < 64
      → Agree len source (shift_by n m)
      → Holds (n + len) (record s { hash_buf = memcpy s.hash_buf (n % 64) source len })
  joined_buffer n s source len h short agree = record {
    digest = h.digest ∙ whole_blocks_count host (n / 64) ((n + len) / 64) start m (omega arith);
    tail = λ i below. elim (Bool-cases (ltb i (n % 64))) [
      | inl old ↦
          memcpy-below s.hash_buf (n % 64) source len i (ground arith)
          ∙ h.tail i (ground arith)
          ∙ ap m (omega arith)
      | inr new ↦
          let late : n % 64 ≤ i = ground arith in
          memcpy-inside s.hash_buf (n % 64) source len i late (omega arith)
          ∙ agree (i - n % 64) (omega arith)
          ∙ ap m (omega arith)
    ];
  }

  -- The update with a block begun, by the number of bytes that join it.
  fill-Holds :
      (n : ℕ) (s : HashState) (source : ℕ → ℕ) (len fill : ℕ)
      → Holds n s
      → fill ≤ len
      → (n % 64 + fill ≡ 64) ⊎ ((fill ≡ len) × (n % 64 + fill < 64))
      → Agree len source (shift_by n m)
      → Holds (n + len) (
          absorb host (fill_buffer host s (n % 64) source fill) (shift_by fill source) (len - fill))
  unfolding fill_buffer
  fill-Holds n s source len fill h fits choice agree =
      let buf = memcpy s.hash_buf (n % 64) source fill in
      if_split (λ t. Holds (n + len) (absorb host t (shift_by fill source) (len - fill)))
        (n % 64 + fill == 64) (record s { hash_buf = buf; sha_h = sha1_block host s.sha_h buf })
        (record s { hash_buf = buf })
        (λ test.
          let full : n % 64 + fill ≡ 64 = ==→eq (n % 64 + fill) 64 test in
          subst
            (λ (k : ℕ). Holds k (
              absorb host (record s { hash_buf = buf; sha_h = sha1_block host s.sha_h buf })
                (shift_by fill source) (len - fill)))
            (omega arith)
            (absorb-Holds (n / 64 + 1)
              (record s { hash_buf = buf; sha_h = sha1_block host s.sha_h buf })
              (shift_by fill source) (len - fill)
              (filled_block n s source fill h full (λ i below. agree i (omega arith)))
              (λ i below. agree (fill + i) (omega arith) ∙ ap m (omega arith))))
        (λ test.
          let short : (fill ≡ len) × (n % 64 + fill < 64) = ground (arith, choice) in
          absorb_nothing (n + len) (record s { hash_buf = buf }) (shift_by fill source) (len - fill)
            (omega (arith, short))
            (subst (λ (k : ℕ). Holds (n + k) (record s { hash_buf = buf })) (short.0)
              (joined_buffer n s source fill h short.1 (λ i below. agree i (omega arith)))))

  pub update-Holds :
      (n : ℕ) (s : HashState) (source : ℕ → ℕ) (len : ℕ)
      → s.hash_len ≡ n % 2 ^ 32
      → Holds n s
      → Agree len source (shift_by n m)
      → Holds (n + len) (sha1_update host s source len)
  unfolding sha1_update
  update-Holds n s source len counted h agree =
      let t = record s { hash_len = u32 (s.hash_len + len) } in
      let held : Holds n t = record { digest = h.digest; tail = h.tail } in
      let buffered : n % 64 ≡ bit_and s.hash_len 63 =
        omega (arith, counted, bit_and_mask 6 s.hash_len) in
      subst
        (λ (b : ℕ). Holds (n + len) (
          if b == 0
          then absorb host t source len
          else absorb host (fill_buffer host t b source (min (64 - b) len))
              (shift_by (min (64 - b) len) source) (len - min (64 - b) len)))
        buffered
        (if_split (Holds (n + len)) (n % 64 == 0) _ _
          (λ test.
            let whole : n % 64 ≡ 0 = ==→eq (n % 64) 0 test in
            subst (λ (k : ℕ). Holds (k + len) (absorb host t source len)) (omega arith)
              (absorb-Holds (n / 64) t source len held.digest
                (λ i below. agree i below ∙ ap m (omega arith))))
          (λ _.
            fill-Holds n t source len (min (64 - n % 64) len) held (omega arith) (omega arith)
              agree))

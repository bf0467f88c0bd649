-- ===== src/Gpmi/Fill.antt =====
-- The data phase of programming a page (hw/block/stmp3770_gpmi.c).
use emu_gii.Prelude.{
  ℕ, suc, ◌+◌, ◌^◌, ◌<◌, ◌≤◌, ◌≡◌, refl, ◌∙◌, ap, arith, ltb, leb, ◌==◌, if◌then◌else◌, if_split,
  for_below, for_below_inv, put_byte,
}
use emu_gii.Reg.{u32}
use emu_gii.Gpmi.Nand.{Nand, NandState}
use emu_gii.Gpmi.Chip.{cmd_program_1st, write_data_byte}

-- One byte more in a buffer that holds the first `k`.
put-filled :
    (buf base bytes : ℕ → ℕ) (ptr size k i : ℕ)
    → ptr ≡ k
    → k < size
    → buf i ≡ (if ltb i k then bytes i else base i)
    → (if ltb ptr size then put_byte buf ptr (bytes k) else buf) i
      ≡ (if ltb i (suc k) then bytes i else base i)
put-filled buf base bytes ptr size k i here inside old =
    if_split (λ (b : ℕ → ℕ). b i ≡ (if ltb i (suc k) then bytes i else base i)) (ltb ptr size)
      (put_byte buf ptr (bytes k)) buf
      (λ _.
        if_split (λ (x : ℕ). x ≡ (if ltb i (suc k) then bytes i else base i)) (i == ptr) (bytes k)
          (buf i)
          (λ same. let e : k ≡ i = ground (arith, same, here) in ap bytes e ∙ ground (arith, e))
          (λ apart. old ∙ ground (arith, apart, here)))
      (λ full. absurd (ground (arith, full, here)))

module _ {D : Type 0} where
  -- After `k` of the `n` bytes that are programmed, from the state `s` on.
  pub record Filling (s : Nand D) (bytes : ℕ → ℕ) (n k : ℕ) (t : Nand D) : Type 0 where
    pub frame :
        t ≡ record s { nand_state = t.nand_state; data_ptr = t.data_ptr; page_buf = t.page_buf }
    pub pointer : t.data_ptr ≡ k
    pub filled :
        (i : ℕ) → i < s.page_buf_size → t.page_buf i ≡ (if ltb i k then bytes i else s.page_buf i)
    pub ended : 0 < k → n ≤ k → t.nand_state ≡ NandState.cmd

  fill_step :
      (s : Nand D) (bytes : ℕ → ℕ) (n : ℕ)
      → s.nand_cmd ≡ cmd_program_1st
      → s.data_count ≡ n
      → n ≤ s.page_buf_size
      → s.page_buf_size < 2 ^ 32
      → (k : ℕ) (t : Nand D) → k < n
      → Filling s bytes n k t
      → Filling s bytes n (suc k) (write_data_byte t (bytes k))
  unfolding write_data_byte
  fill_step s bytes n programs counted room word k t below f =
      let P = Filling s bytes n (suc k) in
      let cmd : t.nand_cmd ≡ cmd_program_1st = ap (λ (u : Nand D). u.nand_cmd) f.frame ∙ programs in
      let size : t.page_buf_size ≡ s.page_buf_size = ap (λ (u : Nand D). u.page_buf_size) f.frame in
      let count : t.data_count ≡ n = ap (λ (u : Nand D). u.data_count) f.frame ∙ counted in
      let buf =
        if ltb t.data_ptr t.page_buf_size
        then put_byte t.page_buf t.data_ptr (bytes k)
        else t.page_buf in
      let pointer : u32 (t.data_ptr + 1) ≡ suc k = omega (arith, f.pointer) in
      let filled : (i : ℕ)
          → i < s.page_buf_size
          → buf i ≡ (if ltb i (suc k) then bytes i else s.page_buf i) =
        λ i inside.
          put-filled t.page_buf s.page_buf bytes t.data_ptr t.page_buf_size k i f.pointer
            (omega (arith, size)) (f.filled i inside) in
      if_split P (t.nand_cmd == cmd_program_1st) _ t
        (λ _.
          if_split P (leb t.data_count (u32 (t.data_ptr + 1))) _ _
            (λ _. record {
              frame =
                  ap
                    (λ (u : Nand D). record u {
                      nand_state = NandState.cmd;
                      data_ptr = u32 (t.data_ptr + 1);
                      page_buf = buf;
                    })
                    f.frame;
              pointer = pointer;
              filled = filled;
              ended = λ _ _. refl;
            })
            (λ more. record {
              frame =
                  ap
                    (λ (u : Nand D). record u {
                      nand_state = t.nand_state;
                      data_ptr = u32 (t.data_ptr + 1);
                      page_buf = buf;
                    })
                    f.frame;
              pointer = pointer;
              filled = filled;
              ended = λ _ last. absurd (ground (arith, more, count, pointer, last));
            }))
        (λ other. absurd (ground (arith, other, cmd)))

  -- The data phase, from a state whose address is complete.
  pub fill :
      (s : Nand D) (bytes : ℕ → ℕ) (n : ℕ)
      → s.nand_cmd ≡ cmd_program_1st
      → s.data_count ≡ n
      → s.data_ptr ≡ 0
      → n ≤ s.page_buf_size
      → s.page_buf_size < 2 ^ 32
      → Filling s bytes n n (for_below n (λ i t. write_data_byte t (bytes i)) s)
  fill s bytes n programs counted begun room word =
      for_below_inv (Filling s bytes n) n (λ i t. write_data_byte t (bytes i)) s
        (record {
          frame = refl;
          pointer = begun;
          filled = λ i _. ground arith;
          ended = λ h _. absurd (omega arith);
        })
        (fill_step s bytes n programs counted room word)

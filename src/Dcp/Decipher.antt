-- ===== src/Dcp/Decipher.antt =====
-- A block that hw/misc/stmp3770_dcp.c enciphers and deciphers again.
use emu_gii.Prelude.{ℕ, ◌≡◌, refl, sym, ◌∙◌, ap, arith, Bool, true, false, inr}
use emu_gii.Bits.{bit}
use emu_gii.Dcp.Words.{Words, Block, apply_swaps, words_to_block, block_to_words, xor_block}
use emu_gii.Dcp.Cipher.{
  IsBlock, Host, load_words, store_words, cipher_step, chain_step, cipher_block, cipher_with,
  Ciphered,
}
use emu_gii.Dcp.Involution.{
  IsWords, words_to_block-IsBlock, block_to_words-IsWords, block_to_words-words_to_block,
  words_to_block-block_to_words, xor_block-IsBlock, xor_block_twice,
}

module _ (host : Host) where
  abbrev swap : Words → Bool → Bool → Words
  swap = apply_swaps host.bswap32

  swap-IsWords :
      (w : Words) (byteswap wordswap : Bool) → IsWords w → IsWords (swap w byteswap wordswap)
  unfolding apply_swaps
  swap-IsWords w false false v = v
  swap-IsWords w false true v = record { w0 = v.w3; w1 = v.w2; w2 = v.w1; w3 = v.w0 }
  swap-IsWords w true false v = record {
    w0 = host.bswap32-lt w.w0 v.w0;
    w1 = host.bswap32-lt w.w1 v.w1;
    w2 = host.bswap32-lt w.w2 v.w2;
    w3 = host.bswap32-lt w.w3 v.w3;
  }
  swap-IsWords w true true v = record {
    w0 = host.bswap32-lt w.w3 v.w3;
    w1 = host.bswap32-lt w.w2 v.w2;
    w2 = host.bswap32-lt w.w1 v.w1;
    w3 = host.bswap32-lt w.w0 v.w0;
  }

  bswap_twice : (w : Words) → IsWords w → swap (swap w true false) true false ≡ w
  unfolding apply_swaps
  bswap_twice w v = λ i. record {
    w0 = host.bswap32-bswap32 w.w0 v.w0 i;
    w1 = host.bswap32-bswap32 w.w1 v.w1 i;
    w2 = host.bswap32-bswap32 w.w2 v.w2 i;
    w3 = host.bswap32-bswap32 w.w3 v.w3 i;
  }

  -- The same swaps again undo themselves.
  swap_twice :
      (w : Words) (byteswap wordswap : Bool)
      → IsWords w
      → swap (swap w byteswap wordswap) byteswap wordswap ≡ w
  unfolding apply_swaps
  swap_twice w false false v = refl
  swap_twice w false true v = refl
  swap_twice w true false v = bswap_twice w v
  swap_twice w true true v = bswap_twice w v

  load_words-IsWords : (f : ℕ → ℕ) → IsWords (load_words host f)
  unfolding load_words
  load_words-IsWords f = record {
    w0 = host.ldl-lt f 0;
    w1 = host.ldl-lt f 4;
    w2 = host.ldl-lt f 8;
    w3 = host.ldl-lt f 12;
  }

  load_words-store_words :
      (f : ℕ → ℕ) (w : Words) → IsWords w → load_words host (store_words host f w) ≡ w
  unfolding load_words store_words
  load_words-store_words f w v =
      let f0 = host.stl_le_p f 0 w.w0 in
      let f1 = host.stl_le_p f0 4 w.w1 in
      let f2 = host.stl_le_p f1 8 w.w2 in
      let e0 : host.ldl_le_p (host.stl_le_p f2 12 w.w3) 0 ≡ w.w0 =
        host.ldl-stl_other f2 12 0 w.w3 (inr (omega arith))
        ∙ host.ldl-stl_other f1 8 0 w.w2 (inr (omega arith))
        ∙ host.ldl-stl_other f0 4 0 w.w1 (inr (omega arith))
        ∙ host.ldl-stl f 0 w.w0 v.w0 in
      let e1 : host.ldl_le_p (host.stl_le_p f2 12 w.w3) 4 ≡ w.w1 =
        host.ldl-stl_other f2 12 4 w.w3 (inr (omega arith))
        ∙ host.ldl-stl_other f1 8 4 w.w2 (inr (omega arith))
        ∙ host.ldl-stl f0 4 w.w1 v.w1 in
      let e2 : host.ldl_le_p (host.stl_le_p f2 12 w.w3) 8 ≡ w.w2 =
        host.ldl-stl_other f2 12 8 w.w3 (inr (omega arith)) ∙ host.ldl-stl f1 8 w.w2 v.w2 in
      let e3 : host.ldl_le_p (host.stl_le_p f2 12 w.w3) 12 ≡ w.w3 = host.ldl-stl f2 12 w.w3 v.w3 in
      λ i. record { w0 = e0 i; w1 = e1 i; w2 = e2 i; w3 = e3 i }

  cipher_step-IsBlock :
      (cbc : Bool) (prev block : Block)
      → IsBlock prev
      → IsBlock block
      → IsBlock (cipher_step host cbc true prev block)
  unfolding cipher_step
  cipher_step-IsBlock true prev block p v =
      host.encrypt-IsBlock (xor_block block prev) (xor_block-IsBlock block prev v p)
  cipher_step-IsBlock false prev block p v = host.encrypt-IsBlock block v

  decipher_step :
      (cbc : Bool) (prev block : Block)
      → IsBlock prev
      → IsBlock block
      → cipher_step host cbc false prev (cipher_step host cbc true prev block) ≡ block
  unfolding cipher_step
  decipher_step true prev block p v =
      ap (λ t. xor_block t prev)
        (host.decrypt-encrypt (xor_block block prev) (xor_block-IsBlock block prev v p))
      ∙ xor_block_twice block prev v p
  decipher_step false prev block p v = host.decrypt-encrypt block v

  same_chain :
      (cbc : Bool) (prev block : Block)
      → chain_step host cbc false prev (cipher_step host cbc true prev block)
        ≡ chain_step host cbc true prev block
  unfolding cipher_step chain_step
  same_chain true prev block = refl
  same_chain false prev block = refl

  -- The words that are stored for a block, read back with the same swaps.
  reread :
      (f : ℕ → ℕ) (block : Block) (byteswap wordswap : Bool)
      → IsBlock block
      → words_to_block (
          swap
            (load_words host (store_words host f (swap (block_to_words block) byteswap wordswap)))
            byteswap
            wordswap)
        ≡ block
  reread f block byteswap wordswap v =
      let w = block_to_words block in
      let words = block_to_words-IsWords block v in
      ap (λ t. words_to_block (swap t byteswap wordswap))
        (load_words-store_words f (swap w byteswap wordswap)
          (swap-IsWords w byteswap wordswap words))
      ∙ ap words_to_block (swap_twice w byteswap wordswap words)
      ∙ words_to_block-block_to_words block v

  -- What is read from the words that deciphering stores.
  restored :
      (f : ℕ → ℕ) (w : Words) (byteswap wordswap : Bool)
      → IsWords w
      → load_words host (
          store_words host f
            (swap (block_to_words (words_to_block (swap w byteswap wordswap))) byteswap wordswap))
        ≡ w
  restored f w byteswap wordswap v =
      ap (λ t. load_words host (store_words host f (swap t byteswap wordswap)))
        (block_to_words-words_to_block (swap w byteswap wordswap)
          (swap-IsWords w byteswap wordswap v))
      ∙ ap (λ t. load_words host (store_words host f t)) (swap_twice w byteswap wordswap v)
      ∙ load_words-store_words f w v

  decipher_with :
      (bi wi bo wo cbc : Bool) (prev : Block) (f : ℕ → ℕ)
      → IsBlock prev
      → let c = cipher_with host true bi wi bo wo cbc prev f in
        let p = cipher_with host false bo wo bi wi cbc prev c.bytes in
        (load_words host p.bytes ≡ load_words host f) × (p.prev ≡ c.prev)
  unfolding cipher_with
  decipher_with bi wi bo wo cbc prev f p =
      let w = load_words host f in
      let block = words_to_block (swap w bi wi) in
      let is_block = words_to_block-IsBlock (swap w bi wi) in
      let made = cipher_step host cbc true prev block in
      let c = store_words host f (swap (block_to_words made) bo wo) in
      let back : words_to_block (swap (load_words host c) bo wo) ≡ made =
        reread f made bo wo (cipher_step-IsBlock cbc prev block p is_block) in
      let plain : cipher_step host cbc false prev (words_to_block (swap (load_words host c) bo wo))
          ≡ block =
        ap (cipher_step host cbc false prev) back ∙ decipher_step cbc prev block p is_block in
      (
        ap (λ t. load_words host (store_words host c (swap (block_to_words t) bi wi))) plain
            ∙ restored c w bi wi (load_words-IsWords f),
        ap (chain_step host cbc false prev) back ∙ same_chain cbc prev block,
      )

-- The swaps of one control word are those of the other, with input and output exchanged.
pub record IsMirror (e d : ℕ) : Type 0 where
  pub input_byteswap : bit d 20 ≡ bit e 22
  pub input_wordswap : bit d 21 ≡ bit e 23
  pub output_byteswap : bit d 22 ≡ bit e 20
  pub output_wordswap : bit d 23 ≡ bit e 21

-- Deciphering undoes enciphering, in ECB and in CBC: if AES decryption undoes encryption, and the
-- swaps of the deciphering packet are those of the enciphering one with input and output
-- exchanged, then a block that was enciphered and is deciphered with the same chaining value holds
-- the four words that it held at first, and the chaining value ends as it did after enciphering.
pub decipher-encipher :
    (host : Host) (e d : ℕ) (cbc : Bool) (prev : Block) (f : ℕ → ℕ)
    → bit e 8 ≡ true
    → bit d 8 ≡ false
    → IsMirror e d
    → IsBlock prev
    → let c = cipher_block host e cbc prev f in
      let p = cipher_block host d cbc prev c.bytes in
      (load_words host p.bytes ≡ load_words host f) × (p.prev ≡ c.prev)
unfolding cipher_block
decipher-encipher host e d cbc prev f enc dec mirror p =
    let done = decipher_with host (bit e 20) (bit e 21) (bit e 22) (bit e 23) cbc prev f p in
    let made : cipher_block host e cbc prev f
        ≡ cipher_with host true (bit e 20) (bit e 21) (bit e 22) (bit e 23) cbc prev f =
      λ i. cipher_with host (enc i) (bit e 20) (bit e 21) (bit e 22) (bit e 23) cbc prev f in
    let plain : cipher_block host d cbc prev (cipher_block host e cbc prev f).bytes
        ≡ cipher_with host false (bit e 22) (bit e 23) (bit e 20) (bit e 21) cbc prev
            (cipher_with host true (bit e 20) (bit e 21) (bit e 22) (bit e 23) cbc prev f).bytes =
      λ i.
        cipher_with host (dec i) (mirror.input_byteswap i) (mirror.input_wordswap i)
          (mirror.output_byteswap i) (mirror.output_wordswap i) cbc prev (made i).bytes in
    (
      ap (λ (t : Ciphered). load_words host t.bytes) plain ∙ done.0,
      ap (λ (t : Ciphered). t.prev) plain ∙ done.1 ∙ sym (ap (λ (t : Ciphered). t.prev) made),
    )

-- ===== src/Dcp/Cipher.antt =====
-- The cipher of hw/misc/stmp3770_dcp.c on one block.
use emu_gii.Prelude.{ℕ, ◌+◌, ◌^◌, ◌<◌, ◌≤◌, ◌≡◌, ◌⊎◌, Bool, if◌then◌else◌}
use emu_gii.Bits.{bit}
use emu_gii.Dcp.Words.{Words, Row, Block, apply_swaps, words_to_block, block_to_words, xor_block}

pub record IsBytes (r : Row) : Type 0 where
  pub b0 : r.b0 < 2 ^ 8
  pub b1 : r.b1 < 2 ^ 8
  pub b2 : r.b2 < 2 ^ 8
  pub b3 : r.b3 < 2 ^ 8

pub record IsBlock (b : Block) : Type 0 where
  pub r0 : IsBytes b.r0
  pub r1 : IsBytes b.r1
  pub r2 : IsBytes b.r2
  pub r3 : IsBytes b.r3

-- QEMU's byte order functions, and its AES with a key set for each direction: what the code relies
-- on. `ldl_le_p (data + i)` loads, and `stl_le_p (data + i, v)` stores, the four bytes from `i` on.
pub record Host : Type 0 where
  pub bswap32 : ℕ → ℕ
  pub ldl_le_p : (ℕ → ℕ) → ℕ → ℕ
  pub stl_le_p : (ℕ → ℕ) → ℕ → ℕ → ℕ → ℕ
  pub aes_encrypt : Block → Block
  pub aes_decrypt : Block → Block
  pub bswap32-lt : (v : ℕ) → v < 2 ^ 32 → bswap32 v < 2 ^ 32
  pub bswap32-bswap32 : (v : ℕ) → v < 2 ^ 32 → bswap32 (bswap32 v) ≡ v
  pub ldl-lt : (f : ℕ → ℕ) (i : ℕ) → ldl_le_p f i < 2 ^ 32
  pub ldl-stl : (f : ℕ → ℕ) (i v : ℕ) → v < 2 ^ 32 → ldl_le_p (stl_le_p f i v) i ≡ v
  pub ldl-stl_other :
      (f : ℕ → ℕ) (i j v : ℕ)
      → (i + 4 ≤ j) ⊎ (j + 4 ≤ i)
      → ldl_le_p (stl_le_p f i v) j ≡ ldl_le_p f j
  pub encrypt-IsBlock : (b : Block) → IsBlock b → IsBlock (aes_encrypt b)
  pub decrypt-encrypt : (b : Block) → IsBlock b → aes_decrypt (aes_encrypt b) ≡ b

-- What `dcp_cipher_block` leaves in `prev` and `data`.
pub record Ciphered : Type 0 where
  pub prev : Block
  pub bytes : ℕ → ℕ

unfoldable pub load_words : Host → (ℕ → ℕ) → Words
load_words host bytes = record {
  w0 = host.ldl_le_p bytes 0;
  w1 = host.ldl_le_p bytes 4;
  w2 = host.ldl_le_p bytes 8;
  w3 = host.ldl_le_p bytes 12;
}

unfoldable pub store_words : Host → (ℕ → ℕ) → Words → ℕ → ℕ
store_words host bytes w =
    host.stl_le_p (host.stl_le_p (host.stl_le_p (host.stl_le_p bytes 0 w.w0) 4 w.w1) 8 w.w2) 12 w.w3

-- The local `block` after the cipher, from what it is before.
unfoldable pub cipher_step : Host → Bool → Bool → Block → Block → Block
cipher_step host cbc encrypt prev block =
    if cbc
    then (if encrypt
        then host.aes_encrypt (xor_block block prev)
        else xor_block (host.aes_decrypt block) prev)
    else if encrypt
    then host.aes_encrypt block
    else host.aes_decrypt block

-- `prev` after it: the block of ciphertext, in CBC.
unfoldable pub chain_step : Host → Bool → Bool → Block → Block → Block
chain_step host cbc encrypt prev block =
    if cbc then if encrypt then host.aes_encrypt (xor_block block prev) else block else prev

-- `dcp_cipher_block` with the flags of the packet: `encrypt`, and the swaps of input and output.
unfoldable pub cipher_with :
    Host → Bool → Bool → Bool → Bool → Bool → Bool → Block → (ℕ → ℕ) → Ciphered
unfolding load_words store_words cipher_step chain_step
cipher_with host encrypt in_byteswap in_wordswap out_byteswap out_wordswap cbc prev bytes =
    let block =
      words_to_block (apply_swaps host.bswap32 (load_words host bytes) in_byteswap in_wordswap) in
    let out = block_to_words (cipher_step host cbc encrypt prev block) in
    record {
      prev = chain_step host cbc encrypt prev block;
      bytes = store_words host bytes (apply_swaps host.bswap32 out out_byteswap out_wordswap);
    }

-- The bits of `ctrl0` are CIPHER_ENCRYPT and the four swaps.
unfoldable pub cipher_block : Host → ℕ → Bool → Block → (ℕ → ℕ) → Ciphered
unfolding cipher_with
cipher_block host ctrl0 cbc prev bytes =
    cipher_with host (bit ctrl0 8) (bit ctrl0 20) (bit ctrl0 21) (bit ctrl0 22) (bit ctrl0 23) cbc
      prev bytes

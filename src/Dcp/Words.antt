-- ===== src/Dcp/Words.antt =====
-- Words, blocks of 16 bytes and the swaps between them in hw/misc/stmp3770_dcp.c.
use emu_gii.Prelude.{ℕ, bit_and, bit_or, bit_xor, Bool, if◌then◌else◌}
use emu_gii.Reg.{◌<<<◌, ◌>>>◌}

-- `uint32_t w[4]`
pub record Words : Type 0 where
  pub w0 : ℕ
  pub w1 : ℕ
  pub w2 : ℕ
  pub w3 : ℕ

-- Four bytes of a block, from `4 * j` on.
pub record Row : Type 0 where
  pub b0 : ℕ
  pub b1 : ℕ
  pub b2 : ℕ
  pub b3 : ℕ

-- `uint8_t block[16]`, by its rows
pub record Block : Type 0 where
  pub r0 : Row
  pub r1 : Row
  pub r2 : Row
  pub r3 : Row

-- `if (byteswap) ..` of `dcp_apply_swaps`
unfoldable pub swap_bytes : (ℕ → ℕ) → Bool → Words → Words
swap_bytes bswap32 byteswap w =
    if byteswap
    then record { w0 = bswap32 w.w0; w1 = bswap32 w.w1; w2 = bswap32 w.w2; w3 = bswap32 w.w3 }
    else w

-- `if (wordswap) ..` of `dcp_apply_swaps`
unfoldable pub swap_words : Bool → Words → Words
swap_words wordswap w =
    if wordswap then record { w0 = w.w3; w1 = w.w2; w2 = w.w1; w3 = w.w0 } else w

unfoldable pub apply_swaps : (ℕ → ℕ) → Words → Bool → Bool → Words
unfolding swap_bytes swap_words
apply_swaps bswap32 w byteswap wordswap = swap_words wordswap (swap_bytes bswap32 byteswap w)

unfoldable pub row_of : ℕ → Row
row_of v = record {
  b0 = bit_and (v >>> 24) 0xff;
  b1 = bit_and (v >>> 16) 0xff;
  b2 = bit_and (v >>> 8) 0xff;
  b3 = bit_and (v >>> 0) 0xff;
}

unfoldable pub words_to_block : Words → Block
unfolding row_of
words_to_block w = record { r0 = row_of w.w3; r1 = row_of w.w2; r2 = row_of w.w1; r3 = row_of w.w0 }

-- `v |= (uint32_t)in[4 * j + c] << (24 - 8 * c)` for `c` from 0 to 3
unfoldable pub word_of : Row → ℕ
word_of r =
    bit_or (bit_or (bit_or (bit_or 0 (r.b0 <<< 24)) (r.b1 <<< 16)) (r.b2 <<< 8)) (r.b3 <<< 0)

unfoldable pub block_to_words : Block → Words
unfolding word_of
block_to_words b = record {
  w0 = word_of b.r3;
  w1 = word_of b.r2;
  w2 = word_of b.r1;
  w3 = word_of b.r0;
}

unfoldable pub xor_row : Row → Row → Row
xor_row x y = record {
  b0 = bit_xor x.b0 y.b0;
  b1 = bit_xor x.b1 y.b1;
  b2 = bit_xor x.b2 y.b2;
  b3 = bit_xor x.b3 y.b3;
}

-- `block[i] ^= prev[i]`
unfoldable pub xor_block : Block → Block → Block
unfolding xor_row
xor_block x y = record {
  r0 = xor_row x.r0 y.r0;
  r1 = xor_row x.r1 y.r1;
  r2 = xor_row x.r2 y.r2;
  r3 = xor_row x.r3 y.r3;
}

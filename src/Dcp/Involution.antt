-- ===== src/Dcp/Involution.antt =====
-- Blocks and words of hw/misc/stmp3770_dcp.c carry the same information, and an XOR undoes itself.
use emu_gii.Prelude.{◌^◌, ◌<◌, ◌≡◌}
use emu_gii.Bits.{bit_xor-lt}
use emu_gii.Dcp.Words.{Words, Row, Block, words_to_block, block_to_words, xor_block, xor_row}
use emu_gii.Dcp.Cipher.{IsBytes, IsBlock}
use emu_gii.Dcp.Inverse.{row_of-IsBytes, word_of-lt, word_of-row_of, row_of-word_of, xor_xor}

pub record IsWords (w : Words) : Type 0 where
  pub w0 : w.w0 < 2 ^ 32
  pub w1 : w.w1 < 2 ^ 32
  pub w2 : w.w2 < 2 ^ 32
  pub w3 : w.w3 < 2 ^ 32

pub words_to_block-IsBlock : (w : Words) → IsBlock (words_to_block w)
unfolding words_to_block
words_to_block-IsBlock w = record {
  r0 = row_of-IsBytes w.w3;
  r1 = row_of-IsBytes w.w2;
  r2 = row_of-IsBytes w.w1;
  r3 = row_of-IsBytes w.w0;
}

pub block_to_words-IsWords : (b : Block) → IsBlock b → IsWords (block_to_words b)
unfolding block_to_words
block_to_words-IsWords b v = record {
  w0 = word_of-lt b.r3 v.r3;
  w1 = word_of-lt b.r2 v.r2;
  w2 = word_of-lt b.r1 v.r1;
  w3 = word_of-lt b.r0 v.r0;
}

pub block_to_words-words_to_block : (w : Words) → IsWords w → block_to_words (words_to_block w) ≡ w
unfolding block_to_words words_to_block
block_to_words-words_to_block w v = λ i. record {
  w0 = word_of-row_of w.w0 v.w0 i;
  w1 = word_of-row_of w.w1 v.w1 i;
  w2 = word_of-row_of w.w2 v.w2 i;
  w3 = word_of-row_of w.w3 v.w3 i;
}

pub words_to_block-block_to_words : (b : Block) → IsBlock b → words_to_block (block_to_words b) ≡ b
unfolding block_to_words words_to_block
words_to_block-block_to_words b v = λ i. record {
  r0 = row_of-word_of b.r0 v.r0 i;
  r1 = row_of-word_of b.r1 v.r1 i;
  r2 = row_of-word_of b.r2 v.r2 i;
  r3 = row_of-word_of b.r3 v.r3 i;
}

xor_row-IsBytes : (x y : Row) → IsBytes x → IsBytes y → IsBytes (xor_row x y)
unfolding xor_row
xor_row-IsBytes x y v w = record {
  b0 = bit_xor-lt 8 x.b0 y.b0 v.b0 w.b0;
  b1 = bit_xor-lt 8 x.b1 y.b1 v.b1 w.b1;
  b2 = bit_xor-lt 8 x.b2 y.b2 v.b2 w.b2;
  b3 = bit_xor-lt 8 x.b3 y.b3 v.b3 w.b3;
}

xor_row_twice : (x y : Row) → IsBytes x → IsBytes y → xor_row (xor_row x y) y ≡ x
unfolding xor_row
xor_row_twice x y v w = λ i. record {
  b0 = xor_xor x.b0 y.b0 v.b0 w.b0 i;
  b1 = xor_xor x.b1 y.b1 v.b1 w.b1 i;
  b2 = xor_xor x.b2 y.b2 v.b2 w.b2 i;
  b3 = xor_xor x.b3 y.b3 v.b3 w.b3 i;
}

pub xor_block-IsBlock : (x y : Block) → IsBlock x → IsBlock y → IsBlock (xor_block x y)
unfolding xor_block
xor_block-IsBlock x y v w = record {
  r0 = xor_row-IsBytes x.r0 y.r0 v.r0 w.r0;
  r1 = xor_row-IsBytes x.r1 y.r1 v.r1 w.r1;
  r2 = xor_row-IsBytes x.r2 y.r2 v.r2 w.r2;
  r3 = xor_row-IsBytes x.r3 y.r3 v.r3 w.r3;
}

pub xor_block_twice : (x y : Block) → IsBlock x → IsBlock y → xor_block (xor_block x y) y ≡ x
unfolding xor_block
xor_block_twice x y v w = λ i. record {
  r0 = xor_row_twice x.r0 y.r0 v.r0 w.r0 i;
  r1 = xor_row_twice x.r1 y.r1 v.r1 w.r1 i;
  r2 = xor_row_twice x.r2 y.r2 v.r2 w.r2 i;
  r3 = xor_row_twice x.r3 y.r3 v.r3 w.r3 i;
}

-- ===== src/Dcp/Hash.antt =====
-- The hash engine of one channel in hw/misc/stmp3770_dcp.c: SHA-1 over a stream of updates, and
-- CRC-32. The state is the channel's entry of `ch_sha_h`, `ch_hash_len`, `ch_hash_buf` and `ch_crc`.
use emu_gii.Prelude.{
  memcpy, memset, put_byte, shift_by, ℕ, zero, suc, ◌+◌, ◌-◌, ◌*◌, ◌/◌, ◌%◌, min, bit_and, bit_xor,
  Bool, true, false, List, [], ◌∷◌, ltb, ◌==◌, if◌then◌else◌, for_below,
}
use emu_gii.Reg.{u32, ◌>>>◌}
use emu_gii.Dcp.Host.{BigEndian}
use emu_gii.Dcp.Sha1.{sha1_block}

pub record HashState : Type 0 where
  pub sha_h : List ℕ
  pub hash_len : ℕ
  pub hash_buf : ℕ → ℕ
  pub crc : ℕ

unfoldable pub sha1_init : HashState → HashState
sha1_init s = record s {
  sha_h = 0x6745_2301 ∷ 0xefcd_ab89 ∷ 0x98ba_dcfe ∷ 0x1032_5476 ∷ 0xc3d2_e1f0 ∷ [];
  hash_len = 0;
}

-- The zeros up to byte 56, and the length in bits in the last eight.
unfoldable pub put_length : (ℕ → ℕ) → ℕ → ℕ → ℕ → ℕ
put_length buf buffered bits =
    let padded = memset buf buffered 0 (56 - buffered) in
    let zeros = memset padded 56 0 4 in
    put_byte
      (put_byte (put_byte (put_byte zeros 60 (bits >>> 24 % 256)) 61 (bits >>> 16 % 256)) 62
        (bits >>> 8 % 256))
      63 (bits % 256)

module _ (host : BigEndian) where
  -- `while (len >= 64) ..`, on the number of blocks in `len`
  unfoldable pub whole_blocks : ℕ → List ℕ → (ℕ → ℕ) → List ℕ
  whole_blocks zero h source = h
  whole_blocks (suc n) h source = whole_blocks n (sha1_block host h source) (shift_by 64 source)

  -- From the `while` on: `len` bytes are left at `source`.
  unfoldable pub absorb : HashState → (ℕ → ℕ) → ℕ → HashState
  unfolding whole_blocks
  absorb s source len =
      let rest = len % 64 in
      let t = record s { sha_h = whole_blocks (len / 64) s.sha_h source } in
      if rest == 0
      then t
      else record t { hash_buf = memcpy t.hash_buf 0 (shift_by (64 * (len / 64)) source) rest }

  -- The branch `if (buffered) ..`: `fill` bytes complete the buffer, or all there are join it.
  unfoldable pub fill_buffer : HashState → ℕ → (ℕ → ℕ) → ℕ → HashState
  unfolding sha1_block
  fill_buffer s buffered source fill =
      let buf = memcpy s.hash_buf buffered source fill in
      if buffered + fill == 64
      then record s { hash_buf = buf; sha_h = sha1_block host s.sha_h buf }
      else record s { hash_buf = buf }

  unfoldable pub sha1_update : HashState → (ℕ → ℕ) → ℕ → HashState
  unfolding absorb fill_buffer
  sha1_update s source len =
      let buffered = bit_and s.hash_len 63 in
      let t = record s { hash_len = u32 (s.hash_len + len) } in
      let fill = min (64 - buffered) len in
      if buffered == 0
      then absorb t source len
      else absorb (fill_buffer t buffered source fill) (shift_by fill source) (len - fill)

  -- `if (buffered > 56) ..`: no room for the length, which goes to a block of its own.
  unfoldable pub flush_full : HashState → ℕ → HashState
  unfolding sha1_block
  flush_full s buffered =
      let buf = memset s.hash_buf buffered 0 (64 - buffered) in
      record s { hash_buf = buf; sha_h = sha1_block host s.sha_h buf }

  unfoldable pub sha1_final : HashState → HashState
  unfolding flush_full put_length sha1_block
  sha1_final s =
      let bits = u32 (s.hash_len * 8) in
      let buffered = bit_and s.hash_len 63 in
      let t = record s { hash_buf = put_byte s.hash_buf buffered 0x80 } in
      let full = ltb 56 (buffered + 1) in
      let u = if full then flush_full t (buffered + 1) else t in
      let buf = put_length u.hash_buf (if full then 0 else buffered + 1) bits in
      record u { hash_buf = buf; sha_h = sha1_block host u.sha_h buf }

unfoldable pub crc32_step : ℕ → ℕ
crc32_step crc = bit_xor (crc >>> 1) (if bit_and crc 1 == 0 then 0 else 0xedb8_8320)

unfoldable pub crc32_byte : ℕ → ℕ → ℕ
unfolding crc32_step for_below
crc32_byte crc byte = for_below 8 (λ _. crc32_step) (bit_xor crc byte)

unfoldable pub hash_bytes : BigEndian → HashState → Bool → (ℕ → ℕ) → ℕ → HashState
unfolding crc32_byte sha1_update for_below
hash_bytes host s true source len = record s {
  crc = for_below len (λ i crc. crc32_byte crc (source i)) s.crc;
  hash_len = u32 (s.hash_len + len);
}
hash_bytes host s false source len = sha1_update host s source len

-- ===== src/Dcp/Sha1.antt =====
-- The compression function of SHA-1 in hw/misc/stmp3770_dcp.c.
use emu_gii.Prelude.{
  ℕ, ◌+◌, ◌-◌, ◌*◌, bit_and, bit_or, bit_xor, List, [], ◌∷◌, ltb, if◌then◌else◌, get_or, set,
  replicate, for_below,
}
use emu_gii.Reg.{u32, not32, ◌<<<◌, ◌>>>◌}
use emu_gii.Dcp.Host.{BigEndian}

unfoldable pub sha1_rol : ℕ → ℕ → ℕ
sha1_rol v n = bit_or (u32 (v <<< n)) (v >>> (32 - n))

-- The locals `a` to `e`.
pub record Round : Type 0 where
  pub a : ℕ
  pub b : ℕ
  pub c : ℕ
  pub d : ℕ
  pub e : ℕ

-- The local `f` of round `i`.
unfoldable pub sha1_f : ℕ → Round → ℕ
sha1_f i r =
    if ltb i 20
    then bit_or (bit_and r.b r.c) (bit_and (not32 r.b) r.d)
    else if ltb i 40
    then bit_xor (bit_xor r.b r.c) r.d
    else if ltb i 60
    then bit_or (bit_or (bit_and r.b r.c) (bit_and r.b r.d)) (bit_and r.c r.d)
    else bit_xor (bit_xor r.b r.c) r.d

-- The local `k` of round `i`.
unfoldable pub sha1_k : ℕ → ℕ
sha1_k i =
    if ltb i 20
    then 0x5a82_7999
    else if ltb i 40
    then 0x6ed9_eba1
    else if ltb i 60
    then 0x8f1b_bcdc
    else 0xca62_c1d6

unfoldable pub sha1_round : List ℕ → ℕ → Round → Round
unfolding sha1_rol sha1_f sha1_k
sha1_round w i r = record {
  a = u32 (sha1_rol r.a 5 + sha1_f i r + r.e + sha1_k i + get_or w i 0);
  b = r.a;
  c = sha1_rol r.b 30;
  d = r.c;
  e = r.d;
}

-- `w[i] = ..` for `i` from 16 on
unfoldable pub sha1_expand : ℕ → List ℕ → List ℕ
unfolding sha1_rol
sha1_expand i w = set w i (
    sha1_rol
      (bit_xor (bit_xor (bit_xor (get_or w (i - 3) 0) (get_or w (i - 8) 0)) (get_or w (i - 14) 0))
        (get_or w (i - 16) 0))
      1)

-- The rounds over the schedule `w`, and the sums with the digest so far.
unfoldable pub sha1_compress : List ℕ → List ℕ → List ℕ
unfolding sha1_round for_below
sha1_compress h w =
    let start : Round = record {
      a = get_or h 0 0;
      b = get_or h 1 0;
      c = get_or h 2 0;
      d = get_or h 3 0;
      e = get_or h 4 0;
    } in
    let end = for_below 80 (sha1_round w) start in
    u32 (get_or h 0 0 + end.a)
    ∷ u32 (get_or h 1 0 + end.b)
    ∷ u32 (get_or h 2 0 + end.c)
    ∷ u32 (get_or h 3 0 + end.d)
    ∷ u32 (get_or h 4 0 + end.e)
    ∷ []

module _ (host : BigEndian) where
  -- The first loop fills the words of the block, the second the rest of the schedule.
  unfoldable pub sha1_schedule : (ℕ → ℕ) → List ℕ
  unfolding sha1_expand for_below
  sha1_schedule block =
      for_below 64 (λ k w. sha1_expand (16 + k) w)
        (for_below 16 (λ i w. set w i (host.ldl_be_p block (4 * i))) (replicate 80 0))

  unfoldable pub sha1_block : List ℕ → (ℕ → ℕ) → List ℕ
  unfolding sha1_compress sha1_schedule
  sha1_block h block = sha1_compress h (sha1_schedule block)

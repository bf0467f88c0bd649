-- ===== src/Tests/Coprocessor.antt =====
-- The hashes of the data co-processor on short messages.
use emu_gii.Prelude.{
  ℕ, true, false, ◌∙◌, ◌/◌, ◌%◌, ◌≤◌, ◌⊎◌, ◌==◌, if◌then◌else◌, ◌+◌, ◌*◌, ◌^◌, ◌<◌, ◌≡◌, refl, ap₂,
  arith, [], ◌∷◌, get_or,
}
use emu_gii.Bits.{complement}
use emu_gii.Dcp.Host.{BigEndian}
use emu_gii.Dcp.Hash.{HashState, sha1_init, sha1_final, sha1_update}
use emu_gii.Bits.{bit}
use emu_gii.Dcp.Words.{Row, Block}
use emu_gii.Dcp.Cipher.{IsBytes, IsBlock, Host, load_words, cipher_block}
use emu_gii.Dcp.Decipher.{IsMirror, decipher-encipher}
use emu_gii.Dcp.Digest.{updates, sha1_reference, sha1_digest}

abbrev load : (ℕ → ℕ) → ℕ → ℕ
load f i = f (i + 0) * 2 ^ 24 + f (i + 1) * 2 ^ 16 + f (i + 2) * 2 ^ 8 + f (i + 3)

load_cong : (f g : ℕ → ℕ) (i : ℕ) → ((k : ℕ) → k < 4 → f (i + k) ≡ g (i + k)) → load f i ≡ load g i
load_cong f g i h =
    ap₂ ◌+◌
      (ap₂ ◌+◌ (ap₂ ◌+◌ (ap₂ ◌*◌ (h 0 (omega arith)) refl) (ap₂ ◌*◌ (h 1 (omega arith)) refl))
        (ap₂ ◌*◌ (h 2 (omega arith)) refl))
      (h 3 (omega arith))

abbrev loads : BigEndian
loads = record { ldl_be_p = load; ldl_be_p_cong = load_cong }

abbrev abc : ℕ → ℕ
abc i = get_or (0x61 ∷ 0x62 ∷ 0x63 ∷ []) i 0

abbrev blank : HashState
blank = record { sha_h = []; hash_len = 7; hash_buf = λ i. i; crc = 0 }

-- The digest of "abc" in FIPS 180-1.
abc_digest :
    (sha1_final loads (updates loads abc 0 (1 ∷ 2 ∷ []) (sha1_init blank))).sha_h
    ≡ 0xa999_3e36 ∷ 0x4706_816a ∷ 0xba3e_2571 ∷ 0x7850_c26c ∷ 0x9cd0_d89d ∷ []
unfolding sha1_init sha1_final sha1_update complement
abc_digest = refl

sha1_digest_example :
    (sha1_final loads (updates loads abc 0 (1 ∷ 2 ∷ []) (sha1_init blank))).sha_h
    ≡ sha1_reference loads abc 3
sha1_digest_example = sha1_digest loads abc (1 ∷ 2 ∷ []) blank

abbrev flip : ℕ → ℕ
flip v = v % 256 * 2 ^ 24 + v / 2 ^ 8 % 256 * 2 ^ 16 + v / 2 ^ 16 % 256 * 2 ^ 8 + v / 2 ^ 24

abbrev load_le : (ℕ → ℕ) → ℕ → ℕ
load_le f i =
    f i % 256 + f (i + 1) % 256 * 2 ^ 8 + f (i + 2) % 256 * 2 ^ 16 + f (i + 3) % 256 * 2 ^ 24

abbrev store_le : (ℕ → ℕ) → ℕ → ℕ → ℕ → ℕ
store_le f i v k =
    if k == i
    then v % 256
    else if k == i + 1
    then v / 2 ^ 8 % 256
    else if k == i + 2
    then v / 2 ^ 16 % 256
    else if k == i + 3
    then v / 2 ^ 24
    else f k

load_le_bytes :
    (f : ℕ → ℕ) (i a b c d : ℕ)
    → f i ≡ a
    → f (i + 1) ≡ b
    → f (i + 2) ≡ c
    → f (i + 3) ≡ d
    → load_le f i ≡ a % 256 + b % 256 * 2 ^ 8 + c % 256 * 2 ^ 16 + d % 256 * 2 ^ 24
load_le_bytes f i a b c d p q r s = omega (arith, p, q, r, s)

load-store : (f : ℕ → ℕ) (i v : ℕ) → v < 2 ^ 32 → load_le (store_le f i v) i ≡ v
load-store f i v h =
    load_le_bytes (store_le f i v) i (v % 256) (v / 2 ^ 8 % 256) (v / 2 ^ 16 % 256) (v / 2 ^ 24)
      (ground arith) (ground arith) (ground arith) (ground arith)
    ∙ omega arith

untouched : (f : ℕ → ℕ) (i v k : ℕ) → (i + 4 ≤ k) ⊎ (k + 1 ≤ i) → store_le f i v k ≡ f k
untouched f i v k apart = ground arith

load-store_other :
    (f : ℕ → ℕ) (i j v : ℕ) → (i + 4 ≤ j) ⊎ (j + 4 ≤ i) → load_le (store_le f i v) j ≡ load_le f j
load-store_other f i j v apart =
    load_le_bytes (store_le f i v) j (f j) (f (j + 1)) (f (j + 2)) (f (j + 3))
      (untouched f i v j (omega arith)) (untouched f i v (j + 1) (omega arith))
      (untouched f i v (j + 2) (omega arith)) (untouched f i v (j + 3) (omega arith))

-- A cipher that only moves the rows of a block.
abbrev host : Host
host = record {
  bswap32 = flip;
  ldl_le_p = load_le;
  stl_le_p = store_le;
  aes_encrypt = λ b. record { r0 = b.r1; r1 = b.r2; r2 = b.r3; r3 = b.r0 };
  aes_decrypt = λ b. record { r0 = b.r3; r1 = b.r0; r2 = b.r1; r3 = b.r2 };
  bswap32-lt = λ v h. omega arith;
  bswap32-bswap32 = λ v h. omega arith;
  ldl-lt = λ f i. omega arith;
  ldl-stl = load-store;
  ldl-stl_other = load-store_other;
  encrypt-IsBlock = λ b v. record { r0 = v.r1; r1 = v.r2; r2 = v.r3; r3 = v.r0 };
  decrypt-encrypt = λ b v. refl;
}

abbrev row : Row
row = record { b0 = 1; b1 = 2; b2 = 3; b3 = 200 }

abbrev vector : Block
vector = record { r0 = row; r1 = row; r2 = row; r3 = row }

row-IsBytes : IsBytes row
row-IsBytes = record { b0 = omega arith; b1 = omega arith; b2 = omega arith; b3 = omega arith }

vector-IsBlock : IsBlock vector
vector-IsBlock = record { r0 = row-IsBytes; r1 = row-IsBytes; r2 = row-IsBytes; r3 = row-IsBytes }

-- CIPHER_ENCRYPT with a byte swap of the input, and a byte swap of the output.
encrypts : bit 0x10_0100 8 ≡ true
unfolding bit
encrypts = refl

decrypts : bit 0x40_0000 8 ≡ false
unfolding bit
decrypts = refl

mirrored : IsMirror 0x10_0100 0x40_0000
unfolding bit
mirrored = record {
  input_byteswap = refl;
  input_wordswap = refl;
  output_byteswap = refl;
  output_wordswap = refl;
}

decipher-encipher_example :
    let c = cipher_block host 0x10_0100 true vector abc in
    let p = cipher_block host 0x40_0000 true vector c.bytes in
    (load_words host p.bytes ≡ load_words host abc) × (p.prev ≡ c.prev)
decipher-encipher_example =
    decipher-encipher host 0x10_0100 0x40_0000 true vector abc encrypts decrypts mirrored
      vector-IsBlock

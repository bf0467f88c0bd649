-- ===== src/Ocotp/Blown.antt =====
-- What programming does to the fuses (hw/misc/stmp3770_ocotp.c).
use emu_gii.Prelude.{
  ℕ, if_split, not, zero, suc, ◌+◌, ◌*◌, ◌<◌, ◌≡◌, refl, ◌∙◌, ap, Bool, true, bit_or, arith, List,
  [], ◌∷◌, get_or, ◌||◌,
}
use emu_gii.Bits.{bit, bit-bit_or}
use emu_gii.Ocotp.Fuses.{Ocotp, blow, reload_shadows}
use emu_gii.Ocotp.Bus.{Reading, read, read_bank, write}
use emu_gii.Ocotp.Steps.{IsClosed, write-kept}

-- Every bit that is set in a word stays set.
abbrev pub Grown : ℕ → ℕ → Type 0
Grown x y = (k : ℕ) → bit x k ≡ true → bit y k ≡ true

abbrev pub AllGrown : List ℕ → List ℕ → Type 0
AllGrown xs ys = (i : ℕ) → Grown (get_or xs i 0) (get_or ys i 0)

pub record IsGrown (s t : Ocotp) : Type 0 where
  pub cust : AllGrown s.cust t.cust
  pub crypto : AllGrown s.crypto t.crypto
  pub custcap : Grown s.otp_custcap t.otp_custcap
  pub lock : Grown s.otp_lock t.otp_lock
  pub rom : AllGrown s.rom t.rom

or-Grown : (x y : ℕ) → Grown x (bit_or x y)
or-Grown x y k h = bit-bit_or x y k ∙ ap (λ b. b || bit y k) h

blow-AllGrown : (xs : List ℕ) (i value : ℕ) → AllGrown xs (blow xs i value)
blow-AllGrown [] i value j = λ k h. h
blow-AllGrown (x ∷ xs) zero value zero = or-Grown x value
blow-AllGrown (x ∷ xs) zero value (suc j) = λ k h. h
blow-AllGrown (x ∷ xs) (suc i) value zero = λ k h. h
blow-AllGrown (x ∷ xs) (suc i) value (suc j) = blow-AllGrown xs i value j

unchanged : (s : Ocotp) → IsGrown s s
unchanged s = record {
  cust = λ i k h. h;
  crypto = λ i k h. h;
  custcap = λ k h. h;
  lock = λ k h. h;
  rom = λ i k h. h;
}

IsGrown-IsClosed : (s : Ocotp) → IsClosed (IsGrown s)
unfolding reload_shadows
IsGrown-IsClosed s = record {
  on_ctrl = λ t c. λ v. record {
    cust = v.cust;
    crypto = v.crypto;
    custcap = v.custcap;
    lock = v.lock;
    rom = v.rom;
  };
  on_word = λ t w. λ v. record {
    cust = v.cust;
    crypto = v.crypto;
    custcap = v.custcap;
    lock = v.lock;
    rom = v.rom;
  };
  on_shadow = λ t w. λ v. record {
    cust = v.cust;
    crypto = v.crypto;
    custcap = v.custcap;
    lock = v.lock;
    rom = v.rom;
  };
  on_reload = λ t. λ v. record {
    cust = v.cust;
    crypto = v.crypto;
    custcap = v.custcap;
    lock = v.lock;
    rom = v.rom;
  };
  on_cust = λ t i w. λ v. record {
    cust = λ j k h. blow-AllGrown t.cust i w j k (v.cust j k h);
    crypto = v.crypto;
    custcap = v.custcap;
    lock = v.lock;
    rom = v.rom;
  };
  on_crypto = λ t i w unlocked. λ v. record {
    cust = v.cust;
    crypto = λ j k h. blow-AllGrown t.crypto i w j k (v.crypto j k h);
    custcap = v.custcap;
    lock = v.lock;
    rom = v.rom;
  };
  on_rom = λ t i w. λ v. record {
    cust = v.cust;
    crypto = v.crypto;
    custcap = v.custcap;
    lock = v.lock;
    rom = λ j k h. blow-AllGrown t.rom i w j k (v.rom j k h);
  };
  on_custcap = λ t w. λ v. record {
    cust = v.cust;
    crypto = v.crypto;
    custcap = λ k h. or-Grown t.otp_custcap w k (v.custcap k h);
    lock = v.lock;
    rom = v.rom;
  };
  on_lock = λ t w. λ v. record {
    cust = v.cust;
    crypto = v.crypto;
    custcap = v.custcap;
    lock = λ k h. or-Grown t.otp_lock w k (v.lock k h);
    rom = v.rom;
  };
}

-- No write clears a fuse: whatever is written, with whatever size and at whatever offset, a bit
-- that is set in a customer word, in the key, in the ROM words, in the capability word or in the
-- lock word is still set afterwards.
pub write-IsGrown : (s : Ocotp) (offset value size : ℕ) → IsGrown s (write s offset value size)
write-IsGrown s offset value size =
    write-kept (IsGrown s) (IsGrown-IsClosed s) s offset value size (unchanged s)

-- The key cannot be programmed, nor made so by reading the shadows again.
pub record IsSealed (key : List ℕ) (s : Ocotp) : Type 0 where
  pub fuses : s.crypto ≡ key
  pub shadow : bit s.lock 4 ≡ true
  pub burnt : bit s.otp_lock 4 ≡ true

IsSealed-IsClosed : (key : List ℕ) → IsClosed (IsSealed key)
unfolding reload_shadows
IsSealed-IsClosed key = record {
  on_ctrl = λ t c. λ v. record { fuses = v.fuses; shadow = v.shadow; burnt = v.burnt };
  on_word = λ t w. λ v. record { fuses = v.fuses; shadow = v.shadow; burnt = v.burnt };
  on_shadow = λ t w. λ v. record { fuses = v.fuses; shadow = v.shadow; burnt = v.burnt };
  on_reload = λ t. λ v. record { fuses = v.fuses; shadow = v.burnt; burnt = v.burnt };
  on_cust = λ t i w. λ v. record { fuses = v.fuses; shadow = v.shadow; burnt = v.burnt };
  on_crypto = λ t i w unlocked v. absurd (ground (arith, v.shadow, unlocked));
  on_rom = λ t i w. λ v. record { fuses = v.fuses; shadow = v.shadow; burnt = v.burnt };
  on_custcap = λ t w. λ v. record { fuses = v.fuses; shadow = v.shadow; burnt = v.burnt };
  on_lock = λ t w.
      λ v. record { fuses = v.fuses; shadow = v.shadow; burnt = or-Grown t.otp_lock w 4 v.burnt };
}

read_bank-sealed :
    (s : Ocotp) (locked : Bool) (word : ℕ)
    → locked ≡ true
    → (read_bank s locked word).value ≡ 0xbada_bada
unfolding read_bank
read_bank-sealed s locked word e =
    if_split (λ (r : Reading). r.value ≡ 0xbada_bada) (not (bit s.ctrl 12) || locked) _ _
      (λ _. refl) (λ no. absurd (ground arith))

read-sealed :
    (s : Ocotp) (i : ℕ)
    → bit s.lock 4 ≡ true
    → i < 4
    → (read s (0x060 + i * 0x10) 4).value ≡ 0xbada_bada
unfolding read
read-sealed s zero e h = read_bank-sealed s (bit s.lock 4) _ e
read-sealed s (suc zero) e h = read_bank-sealed s (bit s.lock 4) _ e
read-sealed s (suc (suc zero)) e h = read_bank-sealed s (bit s.lock 4) _ e
read-sealed s (suc (suc (suc zero))) e h = read_bank-sealed s (bit s.lock 4) _ e
read-sealed s (suc (suc (suc (suc i)))) e h = absurd (omega arith)

-- A sequence of writes: offset, value and size.
abbrev pub write_all : Ocotp → List (ℕ × ℕ × ℕ) → Ocotp
write_all s [] = s
write_all s ((offset, value, size) ∷ more) = write_all (write s offset value size) more

write_all-IsSealed :
    (key : List ℕ) (s : Ocotp) (accesses : List (ℕ × ℕ × ℕ))
    → IsSealed key s
    → IsSealed key (write_all s accesses)
write_all-IsSealed key s [] v = v
write_all-IsSealed key s ((offset, value, size) ∷ more) v =
    write_all-IsSealed key (write s offset value size) more
      (write-kept (IsSealed key) (IsSealed-IsClosed key) s offset value size v)

-- A key that is locked is secret and fixed for good: when the fuse of its lock is blown and the
-- shadow shows it, no sequence of writes changes a word of the key, and after all of them a
-- 32-bit read of any of its four words gives the marker 0xBADABADA.
pub write_all-sealed :
    (s : Ocotp) (accesses : List (ℕ × ℕ × ℕ)) (i : ℕ)
    → bit s.lock 4 ≡ true
    → bit s.otp_lock 4 ≡ true
    → i < 4
    → ((write_all s accesses).crypto ≡ s.crypto)
      × ((read (write_all s accesses) (0x060 + i * 0x10) 4).value ≡ 0xbada_bada)
write_all-sealed s accesses i shadow burnt h =
    let end =
      write_all-IsSealed s.crypto s accesses
        (record { fuses = refl; shadow = shadow; burnt = burnt }) in
    (end.fuses, read-sealed (write_all s accesses) i end.shadow h)

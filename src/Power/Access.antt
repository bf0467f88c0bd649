-- ===== src/Power/Access.antt =====
-- What accesses to the power supply's registers do (hw/misc/stmp3770_power.c).
use emu_gii.Prelude.{
  ℕ, ◌*◌, ◌^◌, ◌<◌, ◌≡◌, ◌≢◌, refl, sym, ◌∙◌, ap, bit_and, true, false, List, leb, ltb, ◌==◌, ◌&&◌,
  inl, inr, Bool-cases, subst, set-get_or, if◌then◌else◌, length, length-set, get_or, set,
  set-AllEntries, replicate-AllEntries, get_or-set_self, get_or-set_ne, AllBelow, arith, if_split,
  replicate,
}
use emu_gii.Bits.{bit, bit_and-le_left, bit_and-le_right, bit_or-lt, bit-mod}
use emu_gii.Reg.{
  u32, not32, Alias, apply_sct, apply_sct-lt, alias_exact, base_of, sct_bit, bit-apply_sct,
}
use emu_gii.Power.Regs.{
  Power, num_slots, slot_from_offset, unlocks, read, write_reset, put_slot, write, reset,
  reset_writable_mask,
}

-- Eighteen words, and the two low bits alone in RESET.
pub record IsValid (s : Power) : Type 0 where
  pub size : length s.regs ≡ 18
  pub words : AllBelow (2 ^ 32) s.regs
  pub reset_low : get_or s.regs 0xE 0 < 4

write_reset-low : (alias : Alias) (old val : ℕ) → old < 4 → write_reset alias old val < 4
unfolding write_reset
write_reset-low Alias.plain old val h =
    if_split (λ (x : ℕ). x < 4) (unlocks val) _ _
      (λ _. omega (arith, bit_and-le_right val reset_writable_mask)) (λ _. h)
write_reset-low Alias.set old val h =
    if_split (λ (x : ℕ). x < 4) (unlocks val) _ _
      (λ _.
        bit_or-lt 2 old (bit_and val reset_writable_mask) h
          (omega (arith, bit_and-le_right val reset_writable_mask)))
      (λ _. h)
write_reset-low Alias.clr old val h =
    if_split (λ (x : ℕ). x < 4) (unlocks val) _ _
      (λ _. omega (arith, bit_and-le_left old (not32 (bit_and val reset_writable_mask)))) (λ _. h)
write_reset-low Alias.tog old val h = h

put_slot-IsValid :
    (s : Power) (slot val : ℕ)
    → val < 2 ^ 32
    → (slot ≡ 0xE → val < 4)
    → IsValid s
    → IsValid (put_slot s slot val)
put_slot-IsValid s slot val fits low v = record {
  size = length-set s.regs slot val ∙ v.size;
  words = set-AllEntries (λ x. x < 2 ^ 32) s.regs slot val fits v.words;
  reset_low = elim (Bool-cases (slot == 0xE)) [
    | inl at_it ↦
        let here : slot ≡ 0xE = ground arith in
        subst (λ (i : ℕ). get_or (set s.regs i val) 0xE 0 < 4) (sym here)
          (subst (λ (x : ℕ). x < 4) (sym (get_or-set_self s.regs 0xE val 0 (omega (arith, v.size))))
            (low here))
    | inr elsewhere ↦
        subst (λ (x : ℕ). x < 4)
          (sym (get_or-set_ne s.regs slot 0xE val 0 (λ same. ground (arith, same)))) v.reset_low
  ];
}

-- A constant of the reset, in a slot other than that of RESET.
put_constant :
    (s : Power) (slot val : ℕ)
    → val < 2 ^ 32
    → slot ≢ 0xE
    → IsValid s
    → IsValid (put_slot s slot val)
put_constant s slot val fits apart = put_slot-IsValid s slot val fits (λ same. absurd (apart same))

zeros-IsValid : IsValid (record { regs = replicate 18 0 })
zeros-IsValid = record {
  size = refl;
  words = replicate-AllEntries (λ x. x < 2 ^ 32) 18 (omega arith);
  reset_low = omega arith;
}

-- The reset establishes the invariant, whatever the registers held.
pub reset-IsValid : (s : Power) → IsValid (reset s)
unfolding reset
reset-IsValid s =
    let ctrl = put_constant _ 0x0 0x4004_0024 (omega arith) (λ e. omega (arith, e)) zeros-IsValid in
    let v5ctrl = put_constant _ 0x1 0x100 (omega arith) (λ e. omega (arith, e)) ctrl in
    let charge = put_constant _ 0x3 0x1_0000 (omega arith) (λ e. omega (arith, e)) v5ctrl in
    let vddd = put_constant _ 0x4 0x0031_0710 (omega arith) (λ e. omega (arith, e)) charge in
    let vdda = put_constant _ 0x5 0x170A (omega arith) (λ e. omega (arith, e)) vddd in
    let vddio = put_constant _ 0x6 0x170C (omega arith) (λ e. omega (arith, e)) vdda in
    let limits = put_constant _ 0x9 0x0004_0C5F (omega arith) (λ e. omega (arith, e)) vddio in
    let loopctrl = put_constant _ 0xA 0x21 (omega arith) (λ e. omega (arith, e)) limits in
    let sts = put_constant _ 0xB 0x8000_0000 (omega arith) (λ e. omega (arith, e)) loopctrl in
    let speed = put_constant _ 0xC 0 (omega arith) (λ e. omega (arith, e)) sts in
    put_constant _ 0xD 0x20 (omega arith) (λ e. omega (arith, e)) speed

-- Every write, of any value to any offset, keeps eighteen registers of 32 bits and a value below
-- four in RESET.
pub write-IsValid : (s : Power) (offset value : ℕ) → IsValid s → IsValid (write s offset value)
unfolding write
write-IsValid s offset value v =
    let slot = slot_from_offset (base_of offset) in
    let old = get_or s.regs slot 0 in
    if_split IsValid (leb (num_slots * 0x10) offset) _ _ (λ _. v)
      λ _.
        if_split IsValid (base_of offset == 0x110) _ _ (λ _. v)
          λ _.
            if_split IsValid (base_of offset == 0x0E0) _ _
              (λ is_reset.
                let here : slot ≡ 0xE = ground arith in
                let low =
                  write_reset-low (alias_exact offset) old (u32 value)
                    (subst (λ (i : ℕ). get_or s.regs i 0 < 4) (sym here) v.reset_low) in
                put_slot-IsValid s slot _ (omega (arith, low)) (λ same. low) v)
              (λ other.
                put_slot-IsValid s slot _
                  (apply_sct-lt (alias_exact offset) old (u32 value) (v.words slot) (omega arith))
                  (λ same. absurd (ground arith)) v)

write_reset-locked :
    (alias : Alias) (old val : ℕ) → unlocks val ≡ false → write_reset alias old val ≡ old
unfolding write_reset
write_reset-locked Alias.plain old val locked = rw locked refl
write_reset-locked Alias.set old val locked = rw locked refl
write_reset-locked Alias.clr old val locked = rw locked refl
write_reset-locked Alias.tog old val locked = refl

-- A write to RESET of a value without the key in its upper half changes nothing, through every
-- alias.
pub write-locked :
    (s : Power) (offset value : ℕ)
    → base_of offset ≡ 0xE0
    → unlocks (u32 value) ≡ false
    → write s offset value ≡ s
unfolding write
write-locked s offset value at locked =
    let slot = slot_from_offset (base_of offset) in
    let old = get_or s.regs slot 0 in
    let Same = λ (t : Power). t ≡ s in
    if_split Same (leb (num_slots * 0x10) offset) _ _ (λ _. refl)
      λ _.
        if_split Same (base_of offset == 0x110) _ _ (λ _. refl)
          λ _.
            if_split Same (base_of offset == 0x0E0) _ _
              (λ _.
                ap (put_slot s slot)
                  (write_reset-locked (alias_exact offset) old (u32 value) locked)
                ∙ ap (λ (regs : List ℕ). record { regs = regs }) (set-get_or s.regs slot 0))
              (λ no. absurd (ground (arith, at)))

write-slot :
    (s : Power) (offset value j : ℕ)
    → slot_from_offset (base_of offset) ≢ j
    → get_or (write s offset value).regs j 0 ≡ get_or s.regs j 0
unfolding write
write-slot s offset value j apart =
    let slot = slot_from_offset (base_of offset) in
    let Same = λ (t : Power). get_or t.regs j 0 ≡ get_or s.regs j 0 in
    if_split Same (leb (num_slots * 0x10) offset) _ _ (λ _. refl)
      λ _.
        if_split Same (base_of offset == 0x110) _ _ (λ _. refl)
          λ _.
            if_split Same (base_of offset == 0x0E0) _ _ (λ _. get_or-set_ne s.regs slot j _ 0 apart)
              (λ _. get_or-set_ne s.regs slot j _ 0 apart)

-- A write shows in no read of another register.
read-write_other :
    (s : Power) (offset value offset' : ℕ)
    → base_of offset ≢ base_of offset'
    → read (write s offset value) offset' ≡ read s offset'
unfolding read
read-write_other s offset value offset' apart =
    ap
      (λ (x : ℕ).
        if leb (num_slots * 0x10) offset'
        then 0
        else if base_of offset' == 0x110
        then 0x0200_0000
        else x)
      (write-slot s offset value (slot_from_offset (base_of offset'))
        (λ same. apart (omega (arith, same))))

-- With eighteen registers, a read after a write to the same offset, of a register other than
-- RESET and VERSION, shows in each of the 32 bits what the alias of the write says.
pub bit-read-write :
    (s : Power) (offset value k : ℕ)
    → length s.regs ≡ 18
    → offset < 0x110
    → base_of offset ≢ 0xE0
    → k < 32
    → bit (read (write s offset value) offset) k
      ≡ sct_bit (alias_exact offset) (bit (read s offset) k) (bit value k)
unfolding write read
bit-read-write s offset value k size below not_reset h =
    let slot = slot_from_offset (base_of offset) in
    let old = get_or s.regs slot 0 in
    let alias = alias_exact offset in
    let inside : leb (num_slots * 0x10) offset ≡ false = ground arith in
    let no_version : (base_of offset == 0x110) ≡ false = ground arith in
    let no_reset : (base_of offset == 0x0E0) ≡ false = ground arith in
    rw (inside, no_version, no_reset)
      (ap (λ (x : ℕ). bit x k)
          (get_or-set_self s.regs slot (apply_sct alias old (u32 value)) 0 (omega (arith, size)))
        ∙ bit-apply_sct alias old (u32 value) k h
        ∙ ap (sct_bit alias (bit old k))
            (bit-mod 32 value k ∙ ap (λ b. b && bit value k) (in_word k h)))
  where
    in_word : (k : ℕ) → k < 32 → ltb k 32 ≡ true
    in_word k h = ground arith

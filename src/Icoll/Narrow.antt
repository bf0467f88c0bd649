-- ===== src/Icoll/Narrow.antt =====
-- Writes of bytes and half-words to the registers of hw/intc/stmp3770_icoll.c, through the handlers.
use emu_gii.Prelude.{
  ℕ, ◌+◌, ◌-◌, ◌*◌, ◌/◌, ◌%◌, ◌^◌, ◌<◌, ◌≡◌, refl, sym, ◌∙◌, ap, Bool, true, false, ◌&&◌, ltb, ◌==◌,
  not, if◌then◌else◌, bit_and, arith, get_or, get_or-set, if_split,
}
use emu_gii.Bits.{
  bit, bit_and-lt, bit_and_mask, bit_of_zero, bit-bit_and, bit-shl, bit_ext, bit-mod, IsMasked,
}
use emu_gii.Reg.{has, base_of, byte_shift, byte_shift-eq, read_subword, size_mask}
use emu_gii.Icoll.State.{Icoll}
use emu_gii.Icoll.Control.{ctrl_rw_mask, priority_rw_mask, vbase_rw_mask}
use emu_gii.Icoll.Bus.{
  Register, decode, register_value, ReadResult, read, merge_subword, write_subword, write,
}
use emu_gii.Icoll.Frame.{Regs, update-regs_of}
use emu_gii.Icoll.Invariant.{IsValid}
use emu_gii.Icoll.Merge.{in_field, bit-merge_subword, bit-read_subword, Fits}

-- The bits of a register that software can write, by accesses of any size.
abbrev pub writable_bits_of : Register → ℕ
writable_bits_of Register.ctrl = ctrl_rw_mask
writable_bits_of Register.vbase = vbase_rw_mask
writable_bits_of (Register.priority n) = priority_rw_mask
writable_bits_of Register.debugflag = 0xffff
writable_bits_of _ = 0

-- A register's address is a word's, and names no alias.
base-has : (offset : ℕ) → has (base_of offset) 0xC ≡ false
unfolding has
base-has offset = ap (λ (x : ℕ). not (x == 0)) no_bits
  where
    low : (k : ℕ) → k < 4 → bit (offset - offset % 16) k ≡ false
    low k h = ap (λ (x : ℕ). bit x k) (omega arith) ∙ bit-shl (offset / 16) 4 k ∙ ground (arith, h)

    no_bits : bit_and (offset - offset % 16) 0xC ≡ 0
    no_bits =
        bit_ext 4 (bit_and (offset - offset % 16) 0xC) 0
          (bit_and-lt 4 (offset - offset % 16) 0xC (omega arith)) (omega arith)
          (λ k h. ground (arith, bit-bit_and (offset - offset % 16) 0xC k, low k h, bit_of_zero k))

bit-read_word :
    (value offset k : ℕ)
    → offset % 4 ≡ 0
    → k < 32
    → bit (read_subword value offset 4) k ≡ bit value k
unfolding read_subword size_mask
bit-read_word value offset k aligned h =
    ap (λ (x : ℕ). bit x k)
      (bit_and_mask 32 (value / 2 ^ byte_shift offset)
        ∙ ap (λ (t : ℕ). value / 2 ^ t % 2 ^ 32)
            (byte_shift-eq offset ∙ ap (λ (t : ℕ). t * 8) aligned))
    ∙ bit-mod 32 (value / 1) k
    ∙ ground (arith, h)

-- What a merge that is cut to the writable bits leaves, if no other bit was set before.
bit-merged :
    (mask old value offset size k : ℕ)
    → IsMasked mask old
    → k < 32
    → bit (bit_and (merge_subword old value offset size) mask) k ≡ (
        if in_field offset size k && bit mask k
        then bit value (k - byte_shift offset)
        else bit old k)
bit-merged mask old value offset size k m h =
    let cut : bit old k ≡ (bit old k && bit mask k) =
      sym (ap (λ (x : ℕ). bit x k) m) ∙ bit-bit_and old mask k in
    ground (
      arith,
      bit-bit_and (merge_subword old value offset size) mask k,
      bit-merge_subword old value offset size k h,
      cut,
    )

-- A register that takes no write keeps its bits.
ignored : (b x y : Bool) (k : ℕ) → y ≡ (if b && bit 0 k then x else y)
ignored b x y k = ground (arith, bit_of_zero k)

-- The array of priorities has 16 entries.
unfoldable pub in_range : Register → Bool
in_range (Register.priority n) = ltb n 16
in_range _ = true

pub decode-in_range : (base : ℕ) → in_range (decode base) ≡ true
unfolding decode in_range
decode-in_range base = ground arith

subword-bits :
    (s : Icoll) (r : Register) (value offset size k : ℕ)
    → IsValid s
    → in_range r ≡ true
    → k < 32
    → bit (register_value (write_subword s r value offset size) r) k ≡ (
        if in_field offset size k && bit (writable_bits_of r) k
        then bit value (k - byte_shift offset)
        else bit (register_value s r) k)
unfolding write_subword register_value in_range
subword-bits s Register.ctrl value offset size k v range h =
    ap (λ (g : Regs). bit g.ctrl k) (update-regs_of _)
    ∙ bit-merged ctrl_rw_mask s.ctrl value offset size k v.ready.regs.0 h
subword-bits s Register.vbase value offset size k v range h =
    ap (λ (g : Regs). bit g.vbase k) (update-regs_of _)
    ∙ bit-merged vbase_rw_mask s.vbase value offset size k v.ready.regs.1 h
subword-bits s (Register.priority n) value offset size k v range h =
    ap (λ (g : Regs). bit (get_or g.priority n 0) k) (update-regs_of _)
    ∙ ap (λ (x : ℕ). bit x k)
        (ground (
          arith,
          get_or-set s.priority n n
              (bit_and (merge_subword (get_or s.priority n 0) value offset size) priority_rw_mask)
              0,
          v.ready.regs.2,
          range,
        ))
    ∙ bit-merged priority_rw_mask (get_or s.priority n 0) value offset size k (v.ready.regs.3 n) h
subword-bits s Register.debugflag value offset size k v range h =
    ap (λ (g : Regs). bit g.debugflag k) (update-regs_of _)
    ∙ bit-merged 0xffff s.debugflag value offset size k
        (bit_and_mask 16 s.debugflag ∙ omega (arith, v.ready.regs.8)) h
subword-bits s Register.vector value offset size k v range h = ignored _ _ _ k
subword-bits s Register.levelack value offset size k v range h = ignored _ _ _ k
subword-bits s Register.stat value offset size k v range h = ignored _ _ _ k
subword-bits s Register.raw0 value offset size k v range h = ignored _ _ _ k
subword-bits s Register.raw1 value offset size k v range h = ignored _ _ _ k
subword-bits s Register.debug value offset size k v range h = ignored _ _ _ k
subword-bits s Register.debugrd0 value offset size k v range h = ignored _ _ _ k
subword-bits s Register.debugrd1 value offset size k v range h = ignored _ _ _ k
subword-bits s Register.debugrdreq0 value offset size k v range h = ignored _ _ _ k
subword-bits s Register.debugrdreq1 value offset size k v range h = ignored _ _ _ k
subword-bits s Register.version value offset size k v range h = ignored _ _ _ k
subword-bits s Register.bad value offset size k v range h = ignored _ _ _ k

base-again : (offset : ℕ) → base_of (base_of offset) ≡ base_of offset
base-again offset = omega arith

-- What a read of an address that names no alias shows.
read-value :
    (s : Icoll) (offset size : ℕ)
    → has offset 0xC ≡ false
    → (read s offset size).value
      ≡ read_subword (register_value s (decode (base_of offset))) offset size
unfolding read read_subword
read-value s offset size exact =
    if_split
      (λ (r : ReadResult).
        r.value ≡ read_subword (register_value s (decode (base_of offset))) offset size)
      (has offset 0xC) _ _ (λ alias. absurd (ground (arith, alias, exact))) (λ _. refl)

-- The word of a register, as a read of its address shows it.
pub word-bits :
    (s : Icoll) (offset k : ℕ)
    → k < 32
    → bit (read s (base_of offset) 4).value k ≡ bit (register_value s (decode (base_of offset))) k
word-bits s offset k h =
    ap (λ (x : ℕ). bit x k) (read-value s (base_of offset) 4 (base-has offset))
    ∙ bit-read_word (register_value s (decode (base_of (base_of offset)))) (base_of offset) k
        (omega arith) h
    ∙ ap (λ (t : ℕ). bit (register_value s (decode t)) k) (base-again offset)

narrow-bits :
    (s : Icoll) (offset size j : ℕ)
    → size < 4
    → has offset 0xC ≡ false
    → j < size * 8
    → bit (read s offset size).value j
      ≡ bit (register_value s (decode (base_of offset))) (byte_shift offset + j)
narrow-bits s offset size j small exact h =
    let x = register_value s (decode (base_of offset)) in
    ap (λ (t : ℕ). bit t j) (read-value s offset size exact)
    ∙ ground (arith, bit-read_subword x offset size j small, h)

write-narrow :
    (now : ℕ) (s : Icoll) (offset value size : ℕ)
    → size < 4
    → write now s offset value size ≡ write_subword s (decode (base_of offset)) value offset size
unfolding write
write-narrow now s offset value size small =
    if_split (λ t. t ≡ write_subword s (decode (base_of offset)) value offset size) (ltb size 4) _ _
      (λ _. refl) (λ wide. absurd (ground (arith, small, wide)))

-- A write of fewer than four bytes to a valid collector stores, at whatever address of a register,
-- the bits of the value that fall on a writable bit of the register: a read of the register's word
-- shows them, and every other bit as it was.
pub narrow_write-bits :
    (now : ℕ) (s : Icoll) (offset value size k : ℕ)
    → IsValid s
    → size < 4
    → k < 32
    → bit (read (write now s offset value size) (base_of offset) 4).value k ≡ (
        if in_field offset size k && bit (writable_bits_of (decode (base_of offset))) k
        then bit value (k - byte_shift offset)
        else bit (read s (base_of offset) 4).value k)
narrow_write-bits now s offset value size k v small h =
    let r = decode (base_of offset) in
    let mask = writable_bits_of r in
    word-bits (write now s offset value size) offset k h
    ∙ ap (λ t. bit (register_value t r) k) (write-narrow now s offset value size small)
    ∙ subword-bits s r value offset size k v (decode-in_range (base_of offset)) h
    ∙ ap
        (λ old.
          if in_field offset size k && bit mask k then bit value (k - byte_shift offset) else old)
        (sym (word-bits s offset k h))

-- What a write of fewer than four bytes to a valid collector stores, the same access reads back, if
-- it stays inside the word and names no alias: the value's bits where the register is writable, and
-- the bits that it read before where it is not.
pub narrow_write-read_back :
    (now : ℕ) (s : Icoll) (offset value size j : ℕ)
    → IsValid s
    → Fits offset size
    → has offset 0xC ≡ false
    → j < size * 8
    → bit (read (write now s offset value size) offset size).value j ≡ (
        if bit (writable_bits_of (decode (base_of offset))) (byte_shift offset + j)
        then bit value j
        else bit (read s offset size).value j)
narrow_write-read_back now s offset value size j v (small, inside) exact h =
    let r = decode (base_of offset) in
    narrow-bits (write now s offset value size) offset size j small exact h
    ∙ ap (λ t. bit (register_value t r) (byte_shift offset + j))
        (write-narrow now s offset value size small)
    ∙ ground (
      arith,
      subword-bits s r value offset size (byte_shift offset + j) v
          (decode-in_range (base_of offset)),
      narrow-bits s offset size j small exact h,
      byte_shift-eq offset,
      inside,
      ap (bit value) (back (byte_shift offset) j),
    )
  where
    back : (a k : ℕ) → a + k - a ≡ k
    back a k = omega arith

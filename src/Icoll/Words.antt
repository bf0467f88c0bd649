-- ===== src/Icoll/Words.antt =====
-- Writes of whole words to the registers of hw/intc/stmp3770_icoll.c, through the handlers.
use emu_gii.Prelude.{
  ℕ, ◌<◌, ◌≤◌, ◌≡◌, refl, sym, ◌∙◌, ap, true, ◌&&◌, ltb, if◌then◌else◌, bit_and, arith, get_or,
  get_or-set, if_split, not,
}
use emu_gii.Bits.{bit, bit_and_mask, bit-bit_and, bit-mod, IsMasked}
use emu_gii.Reg.{u32, has, Alias, apply_sct, sct_bit, bit-apply_sct, alias_exact, base_of}
use emu_gii.Icoll.State.{Icoll, ctrl_sftrst, ctrl_clkgate}
use emu_gii.Icoll.Control.{ctrl_rw_mask, priority_rw_mask, vbase_rw_mask, write_ctrl}
use emu_gii.Icoll.Bus.{Register, decode, register_value, read, write_word, write}
use emu_gii.Icoll.Frame.{Regs, update-regs_of}
use emu_gii.Icoll.Invariant.{IsValid}
use emu_gii.Icoll.Narrow.{writable_bits_of, in_range, decode-in_range, word-bits}

-- What an alias leaves of a register, cut to the writable bits, if no other bit was set before.
bit-aliased :
    (mask old value : ℕ) (alias : Alias) (k : ℕ)
    → IsMasked mask old
    → k < 32
    → bit (bit_and (apply_sct alias old value) mask) k
      ≡ (if bit mask k then sct_bit alias (bit old k) (bit value k) else bit old k)
bit-aliased mask old value alias k m h =
    let cut : bit old k ≡ (bit old k && bit mask k) =
      sym (ap (λ (x : ℕ). bit x k) m) ∙ bit-bit_and old mask k in
    ground (
      arith,
      bit-bit_and (apply_sct alias old value) mask k,
      bit-apply_sct alias old value k h,
      cut,
    )

-- Whatever the soft reset and the bypass do, CTRL takes the writable bits of the result.
write_ctrl-ctrl :
    (now : ℕ) (s : Icoll) (val : ℕ) (alias : Alias)
    → (write_ctrl now s val alias).ctrl ≡ bit_and (apply_sct alias s.ctrl val) ctrl_rw_mask
unfolding write_ctrl
write_ctrl-ctrl now s val alias =
    if_split P (not (has next ctrl_sftrst)) _ _ (λ _. refl)
      λ _.
        if_split P (has next ctrl_clkgate) _ _ (λ _. refl)
          λ _. if_split P (not (has s.ctrl ctrl_sftrst)) _ _ (λ _. refl) (λ _. refl)
  where
    next : ℕ
    next = bit_and (apply_sct alias s.ctrl val) ctrl_rw_mask

    P : Icoll → Type 0
    P t = t.ctrl ≡ next

register-bits :
    (now : ℕ) (s : Icoll) (r : Register) (val : ℕ) (alias : Alias) (k : ℕ)
    → IsValid s
    → in_range r ≡ true
    → 0 < writable_bits_of r
    → k < 32
    → bit (register_value (write_word now s r val alias) r) k ≡ (
        if bit (writable_bits_of r) k
        then sct_bit alias (bit (register_value s r) k) (bit val k)
        else bit (register_value s r) k)
unfolding write_word register_value in_range
register-bits now s Register.ctrl val alias k v range writable h =
    ap (λ (g : Regs). bit g.ctrl k) (update-regs_of _)
    ∙ ap (λ (x : ℕ). bit x k) (write_ctrl-ctrl now s val alias)
    ∙ bit-aliased ctrl_rw_mask s.ctrl val alias k v.ready.regs.0 h
register-bits now s Register.vbase val alias k v range writable h =
    ap (λ (g : Regs). bit g.vbase k) (update-regs_of _)
    ∙ bit-aliased vbase_rw_mask s.vbase val alias k v.ready.regs.1 h
register-bits now s (Register.priority n) val alias k v range writable h =
    let old = get_or s.priority n 0 in
    ap (λ (g : Regs). bit (get_or g.priority n 0) k) (update-regs_of _)
    ∙ ap (λ (x : ℕ). bit x k)
        (ground (
          arith,
          get_or-set s.priority n n (bit_and (apply_sct alias old val) priority_rw_mask) 0,
          v.ready.regs.2,
          range,
        ))
    ∙ bit-aliased priority_rw_mask old val alias k (v.ready.regs.3 n) h
register-bits now s Register.debugflag val alias k v range writable h =
    ap (λ (g : Regs). bit g.debugflag k) (update-regs_of _)
    ∙ bit-aliased 0xffff s.debugflag val alias k
        (bit_and_mask 16 s.debugflag ∙ omega (arith, v.ready.regs.8)) h
register-bits now s Register.vector val alias k v range writable h =
    absurd (omega (arith, writable))
register-bits now s Register.levelack val alias k v range writable h =
    absurd (omega (arith, writable))
register-bits now s Register.stat val alias k v range writable h = absurd (omega (arith, writable))
register-bits now s Register.raw0 val alias k v range writable h = absurd (omega (arith, writable))
register-bits now s Register.raw1 val alias k v range writable h = absurd (omega (arith, writable))
register-bits now s Register.debug val alias k v range writable h = absurd (omega (arith, writable))
register-bits now s Register.debugrd0 val alias k v range writable h =
    absurd (omega (arith, writable))
register-bits now s Register.debugrd1 val alias k v range writable h =
    absurd (omega (arith, writable))
register-bits now s Register.debugrdreq0 val alias k v range writable h =
    absurd (omega (arith, writable))
register-bits now s Register.debugrdreq1 val alias k v range writable h =
    absurd (omega (arith, writable))
register-bits now s Register.version val alias k v range writable h =
    absurd (omega (arith, writable))
register-bits now s Register.bad val alias k v range writable h = absurd (omega (arith, writable))

write-word :
    (now : ℕ) (s : Icoll) (offset value size : ℕ)
    → 4 ≤ size
    → write now s offset value size
      ≡ write_word now s (decode (base_of offset)) (u32 value) (alias_exact offset)
unfolding write
write-word now s offset value size wide =
    if_split (λ t. t ≡ write_word now s (decode (base_of offset)) (u32 value) (alias_exact offset))
      (ltb size 4) _ _ (λ small. absurd (ground (arith, small, wide))) (λ _. refl)

-- A write of a word to a valid collector, at the address of a register that has writable bits,
-- changes exactly those bits, as the alias in the address says: set, clear or toggle those that the
-- value names, or take the value's bits. A read of the register shows them, and every other bit as
-- it was.
pub word_write-bits :
    (now : ℕ) (s : Icoll) (offset value size k : ℕ)
    → IsValid s
    → 0 < writable_bits_of (decode (base_of offset))
    → 4 ≤ size
    → k < 32
    → bit (read (write now s offset value size) (base_of offset) 4).value k ≡ (
        if bit (writable_bits_of (decode (base_of offset))) k
        then sct_bit (alias_exact offset) (bit (read s (base_of offset) 4).value k) (bit value k)
        else bit (read s (base_of offset) 4).value k)
word_write-bits now s offset value size k v writable wide h =
    let r = decode (base_of offset) in
    word-bits (write now s offset value size) offset k h
    ∙ ap (λ t. bit (register_value t r) k) (write-word now s offset value size wide)
    ∙ register-bits now s r (u32 value) (alias_exact offset) k v (decode-in_range (base_of offset))
        writable h
    ∙ ground (arith, word-bits s offset k h, bit-mod 32 value k)

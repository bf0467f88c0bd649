-- ===== src/Icoll/Accesses.antt =====
-- Register accesses keep the invariant of the collector, at every offset and size
-- (hw/intc/stmp3770_icoll.c).
use emu_gii.Prelude.{ℕ, bit_and, not, get_or, arith, if_split, ltb}
use emu_gii.Bits.{bit_and-IsMasked}
use emu_gii.Reg.{has, Alias, apply_sct, u32, alias_exact, base_of}
use emu_gii.Icoll.State.{Icoll, ctrl_arm_rse_mode}
use emu_gii.Icoll.Control.{ctrl_rw_mask}
use emu_gii.Icoll.Bus.{
  Register, decode, read, ReadResult, read_effect, write, write_word, write_subword, merge_subword,
  is_plain,
}
use emu_gii.Icoll.Invariant.{IsValid, update-IsValid}
use emu_gii.Icoll.Preserve.{
  enter_service-IsReady, write_ctrl-IsReady, ctrl_written-IsReady, priority_written-IsReady,
  vbase_written-IsReady, debugflag_written-IsReady, levels_acked-IsReady,
}

write_subword-IsValid :
    (s : Icoll) (reg : Register) (value offset size : ℕ)
    → IsValid s
    → IsValid (write_subword s reg value offset size)
unfolding write_subword
write_subword-IsValid s Register.ctrl value offset size v =
    let x = merge_subword s.ctrl value offset size in
    update-IsValid _ (
      ctrl_written-IsReady s v.ready (bit_and x ctrl_rw_mask) s.vector_pending s.sftrst_timer
        (bit_and-IsMasked 32 x ctrl_rw_mask (omega arith)) (λ on. on))
write_subword-IsValid s Register.vbase value offset size v =
    update-IsValid _ (vbase_written-IsReady s v.ready (merge_subword s.vbase value offset size))
write_subword-IsValid s (Register.priority n) value offset size v =
    update-IsValid _ (
      priority_written-IsReady s v.ready n
        (merge_subword (get_or s.priority n 0) value offset size))
write_subword-IsValid s Register.debugflag value offset size v =
    update-IsValid _
      (debugflag_written-IsReady s v.ready (merge_subword s.debugflag value offset size))
write_subword-IsValid s _ value offset size v = v

write_word-IsValid :
    (now : ℕ) (s : Icoll) (reg : Register) (val : ℕ) (alias : Alias)
    → IsValid s
    → IsValid (write_word now s reg val alias)
unfolding write_word
write_word-IsValid now s Register.vector val alias v =
    if_split IsValid (not (is_plain alias)) _ _ (λ _. v)
      (λ _. update-IsValid _ (enter_service-IsReady s v.ready))
write_word-IsValid now s Register.ctrl val alias v =
    update-IsValid _ (write_ctrl-IsReady s v.ready now val alias)
write_word-IsValid now s Register.vbase val alias v =
    update-IsValid _ (vbase_written-IsReady s v.ready (apply_sct alias s.vbase val))
write_word-IsValid now s Register.levelack val alias v =
    if_split IsValid (not (is_plain alias)) _ _ (λ _. v)
      (λ _. update-IsValid _ (levels_acked-IsReady s v.ready val))
write_word-IsValid now s (Register.priority n) val alias v =
    update-IsValid _
      (priority_written-IsReady s v.ready n (apply_sct alias (get_or s.priority n 0) val))
write_word-IsValid now s Register.debugflag val alias v =
    update-IsValid _ (debugflag_written-IsReady s v.ready (apply_sct alias s.debugflag val))
write_word-IsValid now s _ val alias v = v

pub write-IsValid :
    (now : ℕ) (s : Icoll) (offset value size : ℕ)
    → IsValid s
    → IsValid (write now s offset value size)
unfolding write
write-IsValid now s offset value size v =
    if_split IsValid (ltb size 4) _ _
      (λ _. write_subword-IsValid s (decode (base_of offset)) value offset size v)
      (λ _. write_word-IsValid now s (decode (base_of offset)) (u32 value) (alias_exact offset) v)

read_effect-IsValid : (s : Icoll) (reg : Register) → IsValid s → IsValid (read_effect s reg)
unfolding read_effect
read_effect-IsValid s Register.vector v =
    if_split IsValid (has s.ctrl ctrl_arm_rse_mode) _ _
      (λ _. update-IsValid _ (enter_service-IsReady s v.ready)) (λ _. v)
read_effect-IsValid s _ v = v

pub read-IsValid : (s : Icoll) (offset size : ℕ) → IsValid s → IsValid (read s offset size).state
unfolding read
read-IsValid s offset size v =
    if_split (λ (result : ReadResult). IsValid result.state) (has offset 0xC) _ _ (λ _. v)
      (λ _. read_effect-IsValid s (decode (base_of offset)) v)

-- ===== src/Rtc/Forever.antt =====
-- No sequence of accesses, ticks and resets opens the lock of the seconds (hw/rtc/stmp3770_rtc.c).
use emu_gii.Prelude.{
  ℕ, zero, suc, ◌^◌, ◌≡◌, refl, sym, ◌∙◌, ap, bit_and, bit_or, not, ◌&&◌, ◌||◌, List, [], ◌∷◌,
  subst, ◌==◌, length-set, get_or, set, get_or-set_self, get_or-set_ne, arith, if_split,
  if◌then◌else◌, Bool-clash,
}
use emu_gii.Bits.{bit, bit-bit_or, bit-pow}
use emu_gii.Reg.{u32, not32, has, base_of, alias_exact}
use emu_gii.Rtc.State.{
  Rtc, apply_write, check_alarm, update_irq, ctrl_sftrst, ctrl_clkgate, ctrl_force_update,
  ctrl_writable_mask,
}
use emu_gii.Rtc.Copy.{queue_shadow_refresh, queue_shadow_write, copy_step}
use emu_gii.Rtc.Tick.{tick}
use emu_gii.Rtc.Bus.{
  Register, decode, write_ctrl, write_seconds, write_persistent, persistent_mask, write_register,
  write, init_analog, clear_registers, finish_reset, reset,
}
use emu_gii.Rtc.Lock.{
  IsLocked, unchanged, Same-IsLocked, check_alarm-Same, queue_shadow_write-Same, refresh-IsLocked,
  tick-IsLocked, copy_step-IsLocked,
}

write_ctrl-IsLocked :
    (now : ℕ) (s : Rtc) (value offset size : ℕ)
    → IsLocked s
    → IsLocked (write_ctrl now s value offset size)
unfolding write_ctrl update_irq
write_ctrl-IsLocked now s value offset size l =
    let written =
      apply_write s.ctrl ctrl_writable_mask (u32 value) (alias_exact offset) offset size in
    let gated = if has written ctrl_sftrst then bit_or written ctrl_clkgate else written in
    let t = record s { ctrl = gated } in
    let forced = not (has s.ctrl ctrl_force_update) && has gated ctrl_force_update in
    let fresh = refresh-IsLocked now t l.size l.analog_size l.initialized l.analog_locks in
    let u = queue_shadow_refresh now t in
    let after = if forced then record u { ctrl = bit_and gated (not32 ctrl_force_update) } else t in
    let l' : IsLocked after =
      if_split IsLocked forced _ _
        (λ _. record {
          size = fresh.size;
          analog_size = fresh.analog_size;
          initialized = fresh.initialized;
          analog_locks = fresh.analog_locks;
          shadow_locks = fresh.shadow_locks;
        })
        (λ _. record {
          size = l.size;
          analog_size = l.analog_size;
          initialized = l.initialized;
          analog_locks = l.analog_locks;
          shadow_locks = l.shadow_locks;
        }) in
    record {
      size = l'.size;
      analog_size = l'.analog_size;
      initialized = l'.initialized;
      analog_locks = l'.analog_locks;
      shadow_locks = l'.shadow_locks;
    }

queued-IsLocked :
    (now : ℕ) (s : Rtc) (reg : ℕ) → IsLocked s → IsLocked (queue_shadow_write now s reg)
queued-IsLocked now s reg =
    Same-IsLocked s (queue_shadow_write now s reg) (queue_shadow_write-Same now s reg)

checked-IsLocked : (s : Rtc) → IsLocked s → IsLocked (check_alarm s)
checked-IsLocked s = Same-IsLocked s (check_alarm s) (check_alarm-Same s)

-- A locked clock takes no write of the seconds.
write_seconds-locked :
    (now : ℕ) (s : Rtc) (value offset size : ℕ)
    → IsLocked s
    → write_seconds now s value offset size ≡ s
unfolding write_seconds
write_seconds-locked now s value offset size l =
    let lock = bit (bit_or (get_or s.persistent 0 0) (get_or s.analog_persistent 0 0)) 3 in
    if_split (λ (t : Rtc). t ≡ s) lock _ _ (λ _. refl)
      (λ off.
        Bool-clash
          (ground (
            arith,
            bit-bit_or (get_or s.persistent 0 0) (get_or s.analog_persistent 0 0) 3,
            l.analog_locks,
          ))
          off)

write_persistent-IsLocked :
    (now : ℕ) (s : Rtc) (n value offset size : ℕ)
    → IsLocked s
    → IsLocked (write_persistent now s n value offset size)
unfolding write_persistent
write_persistent-IsLocked now s zero value offset size l =
    let old = get_or s.persistent 0 0 in
    let next = apply_write old (persistent_mask 0) (u32 value) (alias_exact offset) offset size in
    let kept = if 0 == 0 && bit old 3 then bit_or next (2 ^ 3) else next in
    let now_is = get_or-set_self s.persistent 0 kept 0 (omega (arith, l.size)) in
    queued-IsLocked now (record s { persistent = set s.persistent 0 kept }) 0
      (record {
        size = length-set s.persistent 0 kept ∙ l.size;
        analog_size = l.analog_size;
        initialized = l.initialized;
        analog_locks = l.analog_locks;
        shadow_locks =
            ap (λ (x : ℕ). bit x 3 || bit s.copy_to_shadow 0) now_is
            ∙ ground (arith, l.shadow_locks, bit-bit_or next (2 ^ 3) 3, bit-pow 3 3);
      })
write_persistent-IsLocked now s (suc n) value offset size l =
    queued-IsLocked now (record s { persistent = set s.persistent (suc n) _ }) (suc n)
      (Same-IsLocked s _
        (
          length-set s.persistent (suc n) _,
          get_or-set_ne s.persistent (suc n) 0 _ 0 (λ e. omega (arith, e)),
          refl,
          refl,
          refl,
          refl,
        )
        l)

write_register-IsLocked :
    (now : ℕ) (s : Rtc) (reg : Register) (value offset size : ℕ)
    → IsLocked s
    → IsLocked (write_register now s reg value offset size)
unfolding write_register
write_register-IsLocked now s Register.ctrl value offset size l =
    write_ctrl-IsLocked now s value offset size l
write_register-IsLocked now s Register.stat value offset size l = l
write_register-IsLocked now s Register.milliseconds value offset size l =
    Same-IsLocked s _ (unchanged s) l
write_register-IsLocked now s Register.seconds value offset size l =
    subst IsLocked (sym (write_seconds-locked now s value offset size l)) l
write_register-IsLocked now s Register.alarm value offset size l =
    checked-IsLocked _ (queued-IsLocked now _ 6 (Same-IsLocked s _ (unchanged s) l))
write_register-IsLocked now s Register.watchdog value offset size l =
    Same-IsLocked s _ (unchanged s) l
write_register-IsLocked now s Register.debug value offset size l = Same-IsLocked s _ (unchanged s) l
write_register-IsLocked now s Register.version value offset size l = l
write_register-IsLocked now s Register.bad value offset size l = l
write_register-IsLocked now s (Register.persistent n) value offset size l =
    write_persistent-IsLocked now s n value offset size l

reset-IsLocked : (now : ℕ) (s : Rtc) → IsLocked s → IsLocked (reset now s)
unfolding reset clear_registers init_analog finish_reset update_irq
reset-IsLocked now s l =
    if_split (λ (t : Rtc). IsLocked (finish_reset now t)) s.analog_initialized _ _
      (λ _.
        let t : Rtc = record (clear_registers s) {
          copy_to_shadow = 0;
          copy_to_analog = 0;
          debug = 0;
          version = 0x0200_0000;
        } in
        let fresh = refresh-IsLocked now t refl l.analog_size l.initialized l.analog_locks in
        record {
          size = fresh.size;
          analog_size = fresh.analog_size;
          initialized = fresh.initialized;
          analog_locks = fresh.analog_locks;
          shadow_locks = fresh.shadow_locks;
        })
      (λ first. Bool-clash l.initialized first)

-- Everything that happens to the device.
pub data Event : Type 0 where
  bus_write : ℕ → ℕ → ℕ → ℕ → Event
  ticks : Event
  copy_expires device_reset : ℕ → Event

unfoldable pub step : Rtc → Event → Rtc
step s (Event.bus_write now offset value size) = write now s offset value size
step s Event.ticks = tick s
step s (Event.copy_expires now) = copy_step now s
step s (Event.device_reset now) = reset now s

abbrev pub run : Rtc → List Event → Rtc
run s [] = s
run s (e ∷ es) = run (step s e) es

step-IsLocked : (s : Rtc) (e : Event) → IsLocked s → IsLocked (step s e)
unfolding step write
step-IsLocked s (Event.bus_write now offset value size) =
    write_register-IsLocked now s (decode (base_of offset)) value offset size
step-IsLocked s Event.ticks = tick-IsLocked s
step-IsLocked s (Event.copy_expires now) = copy_step-IsLocked now s
step-IsLocked s (Event.device_reset now) = reset-IsLocked now s

run-IsLocked : (s : Rtc) (es : List Event) → IsLocked s → IsLocked (run s es)
run-IsLocked s [] l = l
run-IsLocked s (e ∷ es) l = run-IsLocked (step s e) es (step-IsLocked s e l)

-- Once LCK_SECS is in the always-on copy of PERSISTENT0, and in the shadow unless that is to be
-- refreshed, no sequence of register writes, ticks, copies and device resets leads to a state in
-- which a write of SECONDS, of any value and size, changes anything.
pub locked_forever :
    (s : Rtc) (es : List Event) (now offset value size : ℕ)
    → IsLocked s
    → base_of offset ≡ 0x030
    → write now (run s es) offset value size ≡ run s es
unfolding write write_register decode
locked_forever s es now offset value size l at =
    rw at (write_seconds-locked now (run s es) value offset size (run-IsLocked s es l))

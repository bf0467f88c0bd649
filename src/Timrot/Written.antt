-- ===== src/Timrot/Written.antt =====
-- The inputs, the reset and the register accesses of hw/timer/stmp3770_timer.c keep the invariant.
use emu_gii.Prelude.{
  ℕ, suc, ◌<◌, ◌+◌, ◌^◌, ◌≡◌, refl, sym, ◌∙◌, subst, arith, bit_and, bit_or, bit_xor, Bool, true,
  false, not, ◌&&◌, ◌||◌, ◌==◌, leb, if◌then◌else◌, if_split, for_below_inv,
}
use emu_gii.Bits.{bit, bit_and-lt}
use emu_gii.Reg.{not32, has, Alias}
use emu_gii.Timrot.State.{
  PtimerOps, Channel, Timrot, num_pwm_inputs, is_gated, is_duty_cycle, change, timctrl3_duty_valid,
  rotctrl_clkgate, rotctrl_sftrst, rotctrl_writable_mask,
}
use emu_gii.Timrot.Count.{test_signal_of, configure, end_phase, measure, set_pwm_input}
use emu_gii.Timrot.Bus.{
  Register, apply_write, timctrl_writable_mask, read_register, reset_channel, reset_decoder, reset,
  regate, write_rotctrl, reset_duty_cycle, drop_valid, apply_timctrl, write_timctrl, write_timcount,
  write_register,
}
use emu_gii.Timrot.Invariant.{
  Follows, IsCounted, IsValidBut, IsValid, irq_level-duty_valid, change-IsValidBut, close-IsValid,
  open-IsValid, update-Follows, update-IsCounted,
}
use emu_gii.Timrot.Keeps.{
  repack, still, external_edge-IsValid, configure-IsValid, rearm_rotary-IsValid,
}

module _ {P : Type 0} (pt : PtimerOps P) where
  raise_duty-IsValid :
      (s : Timrot P)
      → IsValid s
      → IsValid (change s 3 (λ t. record t { timctrl = bit_or t.timctrl timctrl3_duty_valid }))
  raise_duty-IsValid s v =
      change-IsValidBut 4 s 3 _ (λ t h. record { bound = h.bound })
        (λ _ t f. record { line = f.line ∙ sym (irq_level-duty_valid t.timctrl) }) v

  end_phase-IsValid : (s : Timrot P) (level : Bool) → IsValid s → IsValid (end_phase pt s level)
  unfolding end_phase
  end_phase-IsValid s level v =
      let m = v.measured in
      if_split IsValid level _ _
        (λ _.
          if_split IsValid s.duty.have_high _ _
            (λ _.
              repack 4
                (change s 3 (λ t. record t { timctrl = bit_or t.timctrl timctrl3_duty_valid })) _
                refl v.rotcount v.knob
                (record { running = omega arith; low = m.running; high = m.high })
                (raise_duty-IsValid s v))
            (λ _.
              repack 4 s _ refl v.rotcount v.knob
                (record { running = omega arith; low = m.running; high = m.high }) v))
        (λ _.
          repack 4 s _ refl v.rotcount v.knob
            (record { running = omega arith; low = m.low; high = m.running }) v)

  measure-IsValid :
      (s : Timrot P) (channel : ℕ) (level : Bool) → IsValid s → IsValid (measure pt s channel level)
  unfolding measure
  measure-IsValid s channel level v =
      let m = v.measured in
      let t = s.timer 3 in
      if_split IsValid (is_gated s.rotctrl || not (is_duty_cycle t 3)) _ _ (λ _. v)
        (λ _.
          if_split IsValid (not (test_signal_of t == 1 + channel)) _ _ (λ _. v)
            (λ _.
              if_split IsValid (not s.duty.test_signal_seen) _ _
                (λ _.
                  repack 4 s _ refl v.rotcount v.knob
                    (record { running = m.running; low = m.low; high = m.high }) v)
                (λ _.
                  if_split IsValid (if s.duty.test_signal_level then level else not level) _ _
                    (λ _. v) (λ _. end_phase-IsValid s level v))))

  pub set_pwm_input-IsValid :
      (s : Timrot P) (channel : ℕ) (level : Bool)
      → IsValid s
      → IsValid (set_pwm_input pt s channel level)
  unfolding set_pwm_input
  set_pwm_input-IsValid s channel level v =
      let stored = record s { pwm_input = λ i. if i == channel then level else s.pwm_input i } in
      if_split IsValid (leb num_pwm_inputs channel) _ _ (λ _. v)
        (λ _. measure-IsValid _ channel level (
          external_edge-IsValid pt 4 stored (1 + channel) (s.pwm_input channel) level
            (still 4 s stored refl refl refl refl v)))

  reset_channel-IsCounted : (t : Channel P) → IsCounted (reset_channel pt t)
  unfolding reset_channel
  reset_channel-IsCounted t = update-IsCounted _ (record { bound = omega arith })

  reset_channel-Follows : (t : Channel P) → Follows (reset_channel pt t)
  unfolding reset_channel
  reset_channel-Follows t = update-Follows _

  -- What the loop of the reset has done to the timers below `n`.
  record IsCleared (n : ℕ) (s : Timrot P) : Type 0 where
    follows : (i : ℕ) → i < n → Follows (s.timer i)
    counted : (i : ℕ) → i < n → IsCounted (s.timer i)
    rotcount : s.rotcount < 2 ^ 16
    knob : s.rotary.state < 4

  reset_step-IsCleared :
      (n : ℕ) (s : Timrot P) → IsCleared n s → IsCleared (suc n) (change s n (reset_channel pt))
  unfolding change
  reset_step-IsCleared n s v = record {
    follows = λ i h.
        if_split Follows (i == n) _ _ (λ _. reset_channel-Follows (s.timer i))
          (λ other. v.follows i (ground (arith, other)));
    counted = λ i h.
        if_split IsCounted (i == n) _ _ (λ _. reset_channel-IsCounted (s.timer i))
          (λ other. v.counted i (ground (arith, other)));
    rotcount = v.rotcount;
    knob = v.knob;
  }

  pub reset-IsValid : (s : Timrot P) → IsValid (reset pt s)
  unfolding reset reset_decoder
  reset-IsValid s =
      let all =
        for_below_inv IsCleared 4 (λ idx u. change u idx (reset_channel pt)) (reset_decoder pt s)
          (record {
            follows = λ i h. absurd (omega arith);
            counted = λ i h. absurd (omega arith);
            rotcount = omega arith;
            knob = omega arith;
          })
          (λ n u _ w. reset_step-IsCleared n u w) in
      record {
        follows = λ i h _. all.follows i h;
        counted = all.counted;
        rotcount = all.rotcount;
        knob = all.knob;
        measured = record { running = omega arith; low = omega arith; high = omega arith };
      }

  regate-IsValid : (old : ℕ) (s : Timrot P) → IsValid s → IsValid (regate pt old s)
  unfolding regate
  regate-IsValid old s v =
      if_split IsValid (has (bit_xor old s.rotctrl) rotctrl_clkgate) _ _
        (λ _.
          for_below_inv (λ _ u. IsValid u) 4 (λ idx u. configure pt u idx false) s v
            (λ idx u _ w. configure-IsValid pt 4 u idx false w))
        (λ _. v)

  write_rotctrl-IsValid :
      (s : Timrot P) (sct : Alias) (value : ℕ) → IsValid s → IsValid (write_rotctrl pt s sct value)
  unfolding write_rotctrl
  write_rotctrl-IsValid s sct value v =
      let old = s.rotctrl in
      let stored = record s { rotctrl = apply_write old rotctrl_writable_mask value sct } in
      let next =
        if_split IsValid (not (bit old 31) && bit stored.rotctrl 31)
          (record (reset pt stored) { rotctrl = bit_or (reset pt stored).rotctrl rotctrl_sftrst })
          stored (λ _. still 4 (reset pt stored) _ refl refl refl refl (reset-IsValid stored))
          (λ _. still 4 s stored refl refl refl refl v) in
      let gated = regate-IsValid old _ next in
      if_split IsValid (has (bit_xor old _) 0x403f_0f77) _ _
        (λ _. rearm_rotary-IsValid pt 4 _ true gated) (λ _. gated)

  clear_valid : Channel P → Channel P
  clear_valid t = record t { timctrl = bit_and t.timctrl (not32 timctrl3_duty_valid) }

  -- Timer 3's line may wait for the update at the end.
  cleared-IsValidBut : (s : Timrot P) → IsValidBut 3 s → IsValidBut 3 (change s 3 clear_valid)
  unfolding clear_valid
  cleared-IsValidBut s v =
      change-IsValidBut 3 s 3 clear_valid (λ t h. record { bound = h.bound })
        (λ other. absurd (ground (arith, other))) v

  reset_duty_cycle-IsValidBut :
      (s : Timrot P) → IsValidBut 3 s → IsValidBut 3 (reset_duty_cycle pt s)
  unfolding reset_duty_cycle clear_valid
  reset_duty_cycle-IsValidBut s v =
      repack 3 (change s 3 clear_valid) _ refl v.rotcount v.knob
        (record { running = omega arith; low = omega arith; high = omega arith })
        (cleared-IsValidBut s v)

  drop_valid-IsValidBut : (s : Timrot P) → IsValidBut 3 s → IsValidBut 3 (drop_valid pt s)
  unfolding drop_valid clear_valid
  drop_valid-IsValidBut s v =
      let m = v.measured in
      repack 3 (change s 3 clear_valid) _ refl v.rotcount v.knob
        (record { running = m.running; low = m.low; high = m.high }) (cleared-IsValidBut s v)

  at_three :
      (f : Timrot P → Timrot P)
      → ((s : Timrot P) → IsValidBut 3 s → IsValidBut 3 (f s))
      → (s : Timrot P) (idx : ℕ) → IsValidBut idx s
      → IsValidBut idx (if idx == 3 then f s else s)
  at_three f keeps s idx v =
      if_split (IsValidBut idx) (idx == 3) _ _
        (λ here.
          let same : idx ≡ 3 = ground (arith, here) in
          subst (λ (i : ℕ). IsValidBut i (f s)) (sym same)
            (keeps s (subst (λ (i : ℕ). IsValidBut i s) same v)))
        (λ _. v)

  apply_timctrl-IsValidBut :
      (s : Timrot P) (idx old : ℕ) → IsValidBut idx s → IsValidBut idx (apply_timctrl pt s idx old)
  unfolding apply_timctrl
  apply_timctrl-IsValidBut s idx old v =
      if_split (IsValidBut idx) (has (bit_xor old (s.timer idx).timctrl) 0xf_427f) _ _
        (λ _.
          configure-IsValid pt idx _ idx _
            (at_three (reset_duty_cycle pt) reset_duty_cycle-IsValidBut s idx v))
        (λ _. at_three (drop_valid pt) drop_valid-IsValidBut s idx v)

  write_timctrl-IsValid :
      (s : Timrot P) (idx : ℕ) (sct : Alias) (value : ℕ)
      → IsValid s
      → IsValid (write_timctrl pt s idx sct value)
  unfolding write_timctrl
  write_timctrl-IsValid s idx sct value v =
      let put : Channel P → Channel P =
        λ t. record t { timctrl = apply_write t.timctrl (timctrl_writable_mask idx) value sct } in
      close-IsValid idx (apply_timctrl pt (change s idx put) idx (s.timer idx).timctrl) (
        apply_timctrl-IsValidBut (change s idx put) idx (s.timer idx).timctrl (
          change-IsValidBut idx s idx put (λ t h. record { bound = h.bound })
            (λ other. absurd (ground (arith, other))) (open-IsValid idx s v)))

  write_timcount-IsValid :
      (s : Timrot P) (idx value : ℕ) → IsValid s → IsValid (write_timcount pt s idx value)
  unfolding write_timcount
  write_timcount-IsValid s idx value v =
      let t = s.timer idx in
      let stored =
        change-IsValidBut 4 s idx (λ t. record t { fixed_count = bit_and value 0xFFFF })
          (λ t h. record { bound = bit_and-lt 16 value 0xFFFF (omega arith) })
          (λ _ t f. record { line = f.line }) v in
      if_split IsValid (bit t.timctrl 7) _ _ (λ _. configure-IsValid pt 4 _ idx true stored)
        (λ _.
          if_split IsValid (bit t.timctrl 6) _ _ (λ _. configure-IsValid pt 4 _ idx false stored)
            (λ _. stored))

  pub write_register-IsValid :
      (s : Timrot P) (r : Register) (sct : Alias) (value : ℕ)
      → IsValid s
      → IsValid (write_register pt s r sct value)
  unfolding write_register
  write_register-IsValid s Register.rotctrl sct value v = write_rotctrl-IsValid s sct value v
  write_register-IsValid s Register.rotcount sct value v = v
  write_register-IsValid s Register.version sct value v = v
  write_register-IsValid s Register.bad sct value v = v
  write_register-IsValid s (Register.timcount n) sct value v = write_timcount-IsValid s n value v
  write_register-IsValid s (Register.timctrl n) sct value v = write_timctrl-IsValid s n sct value v

  pub read_register-IsValid :
      (s : Timrot P) (r : Register) → IsValid s → IsValid (read_register pt s r).state
  unfolding read_register
  read_register-IsValid s Register.rotctrl v = v
  read_register-IsValid s Register.rotcount v =
      if_split IsValid (bit s.rotctrl 12) _ _
        (λ _. repack 4 s _ refl (omega arith) v.knob v.measured v) (λ _. v)
  read_register-IsValid s Register.version v = v
  read_register-IsValid s Register.bad v = v
  read_register-IsValid s (Register.timcount n) v = v
  read_register-IsValid s (Register.timctrl n) v = v

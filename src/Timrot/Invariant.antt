-- ===== src/Timrot/Invariant.antt =====
-- The invariant of hw/timer/stmp3770_timer.c, and the elementary changes that keep it.
use emu_gii.Prelude.{
  ℕ, ◌<◌, ◌^◌, ◌-◌, ◌≡◌, refl, ap, arith, bit_and, bit_or, Bool, true, false, not, ◌&&◌, ◌||◌, ◌==◌,
  if_split, all_below, all_below_sound,
}
use emu_gii.Bits.{bit, bit-bit_or, bit-bit_and, bit_ext, bit_and-lt}
use emu_gii.Reg.{u32}
use emu_gii.Timrot.State.{
  PtimerOps, Channel, Duty, Timrot, irq_level, timctrl_irq, timctrl3_duty_valid, change, update_irq,
  is_duty_cycle, external_source,
}
use emu_gii.Timrot.Count.{
  decrement_external, expire_external, configure_channel, tick_channel, load_count, start_external,
  start_internal, start_duty, get_freq,
}

-- The line is at the level that IRQ and IRQ_EN ask for.
pub record Follows {P : Type 0} (t : Channel P) : Type 0 where
  pub line : t.irq ≡ irq_level t.timctrl

pub record IsCounted {P : Type 0} (t : Channel P) : Type 0 where
  pub bound : t.fixed_count < 2 ^ 16

pub record IsMeasured (d : Duty) : Type 0 where
  pub running : d.running_count < 2 ^ 16
  pub low : d.low_count < 2 ^ 16
  pub high : d.high_count < 2 ^ 16

-- The state is valid but for the line of the timer `loose`, if there is one.
pub record IsValidBut {P : Type 0} (loose : ℕ) (s : Timrot P) : Type 0 where
  pub follows : (i : ℕ) → i < 4 → (i == loose) ≡ false → Follows (s.timer i)
  pub counted : (i : ℕ) → i < 4 → IsCounted (s.timer i)
  pub rotcount : s.rotcount < 2 ^ 16
  pub knob : s.rotary.state < 4
  pub measured : IsMeasured s.duty

-- The invariant: the lines of the four timers follow their registers, and the counts have 16 bits.
abbrev pub IsValid : {P : Type 0} → Timrot P → Type 0
IsValid s = IsValidBut 4 s

apart : (k : ℕ) → k < 16 → not (bit 0x400 k && bit 0xc000 k) ≡ true
unfolding all_below bit
apart k h = all_below_sound 16 (λ j. not (bit 0x400 j && bit 0xc000 j)) k refl h

-- DUTY_VALID is not looked at.
pub irq_level-duty_valid : (x : ℕ) → irq_level (bit_or x timctrl3_duty_valid) ≡ irq_level x
unfolding irq_level
irq_level-duty_valid x =
    ap (λ (y : ℕ). y == 0xc000)
      (bit_ext 16 (bit_and (bit_or x 0x400) 0xc000) (bit_and x 0xc000)
        (bit_and-lt 16 (bit_or x 0x400) 0xc000 (omega arith)) (bit_and-lt 16 x 0xc000 (omega arith))
        same)
  where
    same : (k : ℕ) → k < 16 → bit (bit_and (bit_or x 0x400) 0xc000) k ≡ bit (bit_and x 0xc000) k
    same k h = ground (
      arith,
      apart k h,
      bit-bit_and (bit_or x 0x400) 0xc000 k,
      bit-bit_or x 0x400 k,
      bit-bit_and x 0xc000 k,
    )

module _ {P : Type 0} where
  pub change-IsValidBut :
      (loose : ℕ) (s : Timrot P) (idx : ℕ) (f : Channel P → Channel P)
      → ((t : Channel P) → IsCounted t → IsCounted (f t))
      → ((idx == loose) ≡ false → (t : Channel P) → Follows t → Follows (f t))
      → IsValidBut loose s
      → IsValidBut loose (change s idx f)
  unfolding change
  change-IsValidBut loose s idx f counts follows v = record {
    follows = λ i h closed.
        if_split Follows (i == idx) _ _
          (λ here. follows (ground (arith, here, closed)) (s.timer i) (v.follows i h closed))
          (λ _. v.follows i h closed);
    counted = λ i h.
        if_split IsCounted (i == idx) _ _ (λ _. counts (s.timer i) (v.counted i h))
          (λ _. v.counted i h);
    rotcount = v.rotcount;
    knob = v.knob;
    measured = v.measured;
  }

  -- An update of the loose line closes it.
  pub close-IsValid :
      (idx : ℕ) (s : Timrot P) → IsValidBut idx s → IsValid (change s idx update_irq)
  unfolding change update_irq
  close-IsValid idx s v = record {
    follows = λ i h _.
        if_split Follows (i == idx) _ _ (λ _. record { line = refl })
          (λ other. v.follows i h other);
    counted = λ i h.
        if_split IsCounted (i == idx) _ _ (λ _. record { bound = (v.counted i h).bound })
          (λ _. v.counted i h);
    rotcount = v.rotcount;
    knob = v.knob;
    measured = v.measured;
  }

  -- A valid state is valid but for any line.
  pub open-IsValid : (idx : ℕ) (s : Timrot P) → IsValid s → IsValidBut idx s
  open-IsValid idx s v = record {
    follows = λ i h _. v.follows i h (ground arith);
    counted = v.counted;
    rotcount = v.rotcount;
    knob = v.knob;
    measured = v.measured;
  }

  pub update-Follows : (t : Channel P) → Follows (update_irq t)
  unfolding update_irq
  update-Follows t = record { line = refl }

  pub update-IsCounted : (t : Channel P) → IsCounted t → IsCounted (update_irq t)
  unfolding update_irq
  update-IsCounted t h = record { bound = h.bound }

module _ {P : Type 0} (pt : PtimerOps P) where
  pub tick_channel-Follows : (t : Channel P) → Follows (tick_channel pt t)
  unfolding tick_channel
  tick_channel-Follows t = update-Follows _

  pub tick_channel-IsCounted : (t : Channel P) → IsCounted t → IsCounted (tick_channel pt t)
  unfolding tick_channel
  tick_channel-IsCounted t h = update-IsCounted _ (record { bound = h.bound })

  expire-IsCounted : (t : Channel P) → IsCounted t → IsCounted (expire_external pt t)
  unfolding expire_external
  expire-IsCounted t h =
      if_split IsCounted (bit (bit_or t.timctrl timctrl_irq) 6) _ _
        (λ _. record { bound = h.bound }) (λ _. record { bound = h.bound })

  pub decrement-Follows :
      (idx : ℕ) (t : Channel P) → Follows t → Follows (decrement_external pt idx t)
  unfolding decrement_external
  decrement-Follows idx t f =
      if_split Follows (not t.running || is_duty_cycle t idx) _ _ (λ _. f)
        (λ _.
          if_split Follows (u32 (pt.get_count t.ptimer) == 0) _ _ (λ _. f) (λ _. update-Follows _))

  pub decrement-IsCounted :
      (idx : ℕ) (t : Channel P) → IsCounted t → IsCounted (decrement_external pt idx t)
  unfolding decrement_external
  decrement-IsCounted idx t h =
      let kept : IsCounted
          (record t { ptimer = pt.set_count t.ptimer (u32 (pt.get_count t.ptimer) - 1) }) =
        record { bound = h.bound } in
      if_split IsCounted (not t.running || is_duty_cycle t idx) _ _ (λ _. h)
        (λ _.
          if_split IsCounted (u32 (pt.get_count t.ptimer) == 0) _ _ (λ _. h)
            (λ _. update-IsCounted _ (
              if_split IsCounted (u32 (pt.get_count t.ptimer) - 1 == 0) _ _
                (λ _. expire-IsCounted _ kept) (λ _. kept))))

  load-IsCounted :
      (reload : Bool) (t : Channel P) → IsCounted t → IsCounted (load_count pt reload t)
  unfolding load_count
  load-IsCounted reload t h =
      if_split IsCounted (reload || not t.running) _ _ (λ _. record { bound = h.bound })
        (λ _. record { bound = h.bound })

  start_duty-Follows : (freq : ℕ) (t : Channel P) → Follows t → Follows (start_duty pt freq t)
  unfolding start_duty
  start_duty-Follows freq t f = record { line = f.line }

  start_duty-IsCounted : (freq : ℕ) (t : Channel P) → IsCounted t → IsCounted (start_duty pt freq t)
  unfolding start_duty
  start_duty-IsCounted freq t h = record { bound = h.bound }

  start_external-IsCounted : (t : Channel P) → IsCounted t → IsCounted (start_external pt t)
  unfolding start_external
  start_external-IsCounted t h = record { bound = h.bound }

  start_internal-IsCounted :
      (freq : ℕ) (t : Channel P) → IsCounted t → IsCounted (start_internal pt freq t)
  unfolding start_internal
  start_internal-IsCounted freq t h =
      if_split IsCounted (t.fixed_count == 0) _ _ (λ _. record { bound = h.bound })
        (λ _. record { bound = h.bound })

  pub configure-Follows :
      (rotctrl idx : ℕ) (reload : Bool) (t : Channel P)
      → Follows t
      → Follows (configure_channel pt rotctrl idx reload t)
  unfolding configure_channel
  configure-Follows rotctrl idx reload t f =
      if_split Follows (get_freq rotctrl t == 0 && not (external_source t)) _ _
        (λ _. update-Follows _)
        (λ _.
          if_split Follows (is_duty_cycle t idx) _ _ (λ _. start_duty-Follows _ t f)
            (λ _.
              if_split Follows (external_source t) _ _ (λ _. update-Follows _)
                (λ _. update-Follows _)))

  pub configure-IsCounted :
      (rotctrl idx : ℕ) (reload : Bool) (t : Channel P)
      → IsCounted t
      → IsCounted (configure_channel pt rotctrl idx reload t)
  unfolding configure_channel
  configure-IsCounted rotctrl idx reload t h =
      let loaded = load-IsCounted reload t h in
      if_split IsCounted (get_freq rotctrl t == 0 && not (external_source t)) _ _
        (λ _. update-IsCounted _ (record { bound = h.bound }))
        (λ _.
          if_split IsCounted (is_duty_cycle t idx) _ _ (λ _. start_duty-IsCounted _ t h)
            (λ _.
              if_split IsCounted (external_source t) _ _
                (λ _. update-IsCounted _ (start_external-IsCounted _ loaded))
                (λ _. update-IsCounted _ (start_internal-IsCounted _ _ loaded))))

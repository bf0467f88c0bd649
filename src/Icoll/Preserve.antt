-- ===== src/Icoll/Preserve.antt =====
-- Every entry point of the collector keeps the invariant (hw/intc/stmp3770_icoll.c).
use emu_gii.Prelude.{
  ℕ, ◌+◌, ◌<◌, ◌^◌, ◌≡◌, refl, bit_and, bit_or, Bool, true, false, not, ◌&&◌, Option, none, set,
  length-set, set-AllEntries, replicate-AllEntries, arith, if_split, ◌∙◌, sym, ap, if◌then◌else◌,
}
use emu_gii.Bits.{
  complement, bit_or-lt, pow-lt, bit_and-lt, bit_and-le_left, bit_and-IsMasked, IsMasked,
}
use emu_gii.Reg.{has, Alias, apply_sct}
use emu_gii.Icoll.State.{Icoll, level_of, ctrl_bypass_fsm, ctrl_sftrst, ctrl_clkgate}
use emu_gii.Icoll.Update.{is_multicycle}
use emu_gii.Icoll.Control.{
  ctrl_rw_mask, priority_rw_mask, vbase_rw_mask, enter_service, reset, finish_soft_reset,
  multicycle_tick, set_irq, set_hclk_rate, write_ctrl,
}
use emu_gii.Icoll.Bus.{ack_levels}
use emu_gii.Icoll.Levels.{ack_levels-length, ack_levels-AllBelow}
use emu_gii.Icoll.Invariant.{IsReady, IsValid, RegsFit, update-IsValid}

module _ (s : Icoll) (r : IsReady s) where
  pub enter_service-IsReady : IsReady (enter_service s)
  unfolding enter_service
  enter_service-IsReady =
      if_split IsReady (not s.vector_pending) _ _ (λ _. r)
        λ _.
          let (c, v, n, p, raw, levels, fits, mirror, flag) = r.regs in
          record {
            regs = (
              c,
              v,
              n,
              p,
              raw,
              length-set s.level_active (level_of s s.vector) (s.vector + 1) ∙ levels,
              set-AllEntries (λ x. x < 65) s.level_active (level_of s s.vector) (s.vector + 1)
                  (omega (arith, r.vector_fits)) fits,
              mirror,
              flag,
            );
            vector_fits = r.vector_fits;
            selected_fits = r.selected_fits;
            saved_fits = r.saved_fits;
            single = r.single;
            waits = λ impossible. cc;
          }

  -- The registers after a write to CTRL, whatever became of the reset timer.
  pub ctrl_written-IsReady :
      (next : ℕ) (still_pending : Bool) (timer : Option ℕ)
      → IsMasked ctrl_rw_mask next
      → (still_pending ≡ true → s.vector_pending ≡ true)
      → IsReady (record s {
        ctrl = next;
        fiq_enable = bit_and next 0xff;
        vector_pending = still_pending;
        sftrst_timer = timer;
      })
  ctrl_written-IsReady next still_pending timer masked weaker =
      let (c, v, n, p, raw, levels, fits, mirror, flag) = r.regs in
      record {
        regs = (masked, v, n, p, raw, levels, fits, refl, flag);
        vector_fits = r.vector_fits;
        selected_fits = r.selected_fits;
        saved_fits = r.saved_fits;
        single = r.single;
        waits = λ on. r.waits (weaker on);
      }

  pub write_ctrl-IsReady : (now val : ℕ) (alias : Alias) → IsReady (write_ctrl now s val alias)
  unfolding write_ctrl
  write_ctrl-IsReady now val alias =
      let next = bit_and (apply_sct alias s.ctrl val) ctrl_rw_mask in
      let still =
        if not (has s.ctrl ctrl_bypass_fsm) && has next ctrl_bypass_fsm
        then false
        else s.vector_pending in
      let weaker : still ≡ true → s.vector_pending ≡ true = λ h. ground arith in
      let leaf = λ (timer : Option ℕ).
        ctrl_written-IsReady next still timer
          (bit_and-IsMasked 32 (apply_sct alias s.ctrl val) ctrl_rw_mask (omega arith)) weaker in
      if_split IsReady (not (has next ctrl_sftrst)) _ _ (λ _. leaf none)
        λ _.
          if_split IsReady (has next ctrl_clkgate) _ _ (λ _. leaf none)
            λ _.
              if_split IsReady (not (has s.ctrl ctrl_sftrst)) _ _ (λ _. leaf _)
                (λ _. leaf s.sftrst_timer)

-- What an event does to the registers alone is judged by the registers alone.
regs_changed-IsReady :
    (s t : Icoll)
    → IsReady s
    → RegsFit t
    → t.vector ≡ s.vector
    → t.selected_vector ≡ s.selected_vector
    → t.saved_vector ≡ s.saved_vector
    → t.fsm_state ≡ s.fsm_state
    → t.vector_pending ≡ s.vector_pending
    → IsReady t
regs_changed-IsReady s t r regs a b c d e = record {
  regs = regs;
  vector_fits = omega (arith, r.vector_fits);
  selected_fits = omega (arith, r.selected_fits);
  saved_fits = omega (arith, r.saved_fits);
  single = ap is_multicycle d ∙ r.single;
  waits = λ on. d ∙ r.waits (sym e ∙ on);
}

module _ (s : Icoll) (r : IsReady s) where
  pub priority_written-IsReady :
      (n x : ℕ) → IsReady (record s { priority = set s.priority n (bit_and x priority_rw_mask) })
  priority_written-IsReady n x =
      let (c, v, size, p, raw, levels, fits, mirror, flag) = r.regs in
      let masked =
        set-AllEntries (IsMasked priority_rw_mask) s.priority n (bit_and x priority_rw_mask)
          (bit_and-IsMasked 32 x priority_rw_mask (omega arith)) p in
      regs_changed-IsReady s _ r
        (
          c,
          v,
          length-set s.priority n (bit_and x priority_rw_mask) ∙ size,
          masked,
          raw,
          levels,
          fits,
          mirror,
          flag,
        )
        refl refl refl refl refl

  pub vbase_written-IsReady : (x : ℕ) → IsReady (record s { vbase = bit_and x vbase_rw_mask })
  vbase_written-IsReady x =
      let (c, v, size, p, raw, levels, fits, mirror, flag) = r.regs in
      let masked = bit_and-IsMasked 32 x vbase_rw_mask (omega arith) in
      regs_changed-IsReady s _ r (c, masked, size, p, raw, levels, fits, mirror, flag) refl refl
        refl refl refl

  pub debugflag_written-IsReady : (x : ℕ) → IsReady (record s { debugflag = bit_and x 0xffff })
  debugflag_written-IsReady x =
      let (c, v, size, p, raw, levels, fits, mirror, flag) = r.regs in
      regs_changed-IsReady s _ r
        (c, v, size, p, raw, levels, fits, mirror, bit_and-lt 16 x 0xffff (omega arith)) refl refl
        refl refl refl

  pub levels_acked-IsReady :
      (val : ℕ) → IsReady (record s { level_active = ack_levels val s.level_active })
  levels_acked-IsReady val =
      let (c, v, size, p, raw, levels, fits, mirror, flag) = r.regs in
      let acked = ack_levels-AllBelow val s.level_active fits in
      regs_changed-IsReady s _ r
        (c, v, size, p, raw, ack_levels-length val s.level_active ∙ levels, acked, mirror, flag)
        refl refl refl refl refl

  raw_changed-IsReady : (x : ℕ) → x < 2 ^ 64 → IsReady (record s { raw_status = x })
  raw_changed-IsReady x h =
      let (c, v, size, p, raw, levels, fits, mirror, flag) = r.regs in
      regs_changed-IsReady s _ r (c, v, size, p, h, levels, fits, mirror, flag) refl refl refl refl
        refl

pub reset-IsReady : (s : Icoll) → IsReady (reset s)
unfolding reset
reset-IsReady s = record {
  regs = (
    refl,
    refl,
    refl,
    replicate-AllEntries (IsMasked priority_rw_mask) 16 refl,
    omega arith,
    refl,
    replicate-AllEntries (λ x. x < 65) 4 (omega arith),
    refl,
    omega arith,
  );
  vector_fits = omega arith;
  selected_fits = omega arith;
  saved_fits = omega arith;
  single = refl;
  waits = λ impossible. cc;
}

pub reset-IsValid : (s : Icoll) → IsValid (reset s)
unfolding reset
reset-IsValid s = record { ready = reset-IsReady s; settled = refl }

pub set_irq-IsValid :
    (s : Icoll) (source : ℕ) (level : Bool)
    → source < 64
    → IsValid s
    → IsValid (set_irq s source level)
unfolding set_irq
set_irq-IsValid s source true h v =
    let raw = v.ready.regs.4 in
    update-IsValid _ (
      raw_changed-IsReady s v.ready (bit_or s.raw_status (2 ^ source))
        (bit_or-lt 64 s.raw_status (2 ^ source) raw (pow-lt source 64 h)))
set_irq-IsValid s source false h v =
    let cleared = bit_and s.raw_status (complement 64 (2 ^ source)) in
    update-IsValid _ (
      raw_changed-IsReady s v.ready cleared
        (omega (arith, v.ready.regs.4, bit_and-le_left s.raw_status (complement 64 (2 ^ source)))))

pub finish_soft_reset-IsValid : (s : Icoll) → IsValid (finish_soft_reset s)
unfolding finish_soft_reset
finish_soft_reset-IsValid s = update-IsValid _ (reset-IsReady (record s { sftrst_timer = none }))

-- The multicycle callback finds nothing to do.
pub multicycle_tick_idle : (s : Icoll) → IsValid s → multicycle_tick s ≡ s
unfolding multicycle_tick
multicycle_tick_idle s v = rw v.ready.single refl

pub set_hclk_rate-IsValid : (s : Icoll) (hz : ℕ) → IsValid s → IsValid (set_hclk_rate s hz)
unfolding set_hclk_rate
set_hclk_rate-IsValid s hz v = record {
  ready = regs_changed-IsReady s _ v.ready v.ready.regs refl refl refl refl refl;
  settled = v.settled;
}

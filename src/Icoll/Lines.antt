-- ===== src/Icoll/Lines.antt =====
-- The output lines and the state that `stmp3770_icoll_update` leaves (hw/intc/stmp3770_icoll.c).
use emu_gii.Prelude.{ℕ, ◌≡◌, refl, true, false, not, ◌&&◌, Option, none, some, arith, Bool-clash}
use emu_gii.Reg.{has}
use emu_gii.Icoll.State.{
  Icoll, ctrl_gated, ctrl_bypass_fsm, ctrl_fiq_final_enable, ctrl_irq_final_enable,
}
use emu_gii.Icoll.Arbiter.{
  Candidate, live_requests, fiq_pending, find_candidate, busy_from, highest_active_level,
}
use emu_gii.Icoll.Branches.{update-Branches, busy_set, level_set, sampled}
use emu_gii.Icoll.Inputs.{SameInputs, live_requests_cong, fiq_pending_cong, busy_from_cong}
use emu_gii.Icoll.Update.{
  update, update_gated, update_bypass, arbitrate, finish_multicycle, is_multicycle, drive_lines,
  drive_fiq, set_pending, fiq_line, irq_line,
}

-- The three outputs as functions of the registers and of the pending flag.
pub record LinesFollow (s : Icoll) : Type 0 where
  pub irq_follows : s.irq ≡ (
      not (has s.ctrl ctrl_gated)
      && not (has s.ctrl ctrl_bypass_fsm)
      && has s.ctrl ctrl_irq_final_enable
      && s.vector_pending)
  pub fiq_follows :
      s.fiq ≡ (not (has s.ctrl ctrl_gated) && has s.ctrl ctrl_fiq_final_enable && fiq_pending s)
  pub busy_follows : s.icoll_busy ≡ (busy_from s (live_requests s) && not (has s.ctrl ctrl_gated))

-- `update` changes none of these registers.
pub update-SameInputs : (s : Icoll) → SameInputs s (update s)
unfolding update_gated update_bypass arbitrate finish_multicycle drive_lines drive_fiq set_pending
update-SameInputs s = update-Branches (SameInputs s) s (record {
  gated = λ g. (refl, refl, refl, refl);
  bypass = λ g b. (refl, refl, refl, refl);
  multicycle = λ g b m.
      finish (find_candidate s s.request_holding (highest_active_level s)) (highest_active_level s);
  waiting = λ g b m w. (refl, refl, refl, refl);
  arbitrated = λ g b m w.
      choose (find_candidate s (live_requests s) (highest_active_level s)) (highest_active_level s);
})
  where
    finish :
        (c : Option Candidate) (a : Option ℕ) → SameInputs s (finish_multicycle (level_set s) a c)
    finish (some c) a = (refl, refl, refl, refl)
    finish none none = (refl, refl, refl, refl)
    finish none (some l) = (refl, refl, refl, refl)

    choose : (c : Option Candidate) (a : Option ℕ) → SameInputs s (arbitrate (sampled s) a c)
    choose (some c) a = (refl, refl, refl, refl)
    choose none none = (refl, refl, refl, refl)
    choose none (some l) = (refl, refl, refl, refl)

-- The outputs after the update, by the registers before it.
abbrev Driven : Icoll → Icoll → Type 0
Driven s t =
    (t.irq ≡ (
      not (has s.ctrl ctrl_gated)
      && not (has s.ctrl ctrl_bypass_fsm)
      && has s.ctrl ctrl_irq_final_enable
      && t.vector_pending))
    × (t.fiq ≡ (not (has s.ctrl ctrl_gated) && has s.ctrl ctrl_fiq_final_enable && fiq_pending s))
    × (t.icoll_busy ≡ (busy_from s (live_requests s) && not (has s.ctrl ctrl_gated)))

module _ (s : Icoll) (running : has s.ctrl ctrl_gated ≡ false)
    (normal : has s.ctrl ctrl_bypass_fsm ≡ false) where
  drive_lines-Driven :
      (t : Icoll)
      → SameInputs s t
      → t.icoll_busy ≡ (busy_set s).icoll_busy
      → Driven s (drive_lines t)
  unfolding drive_lines irq_line fiq_line
  drive_lines-Driven t same busy = ground (arith, fiq_pending_cong s t same)

  drive_fiq-Driven :
      (t : Icoll)
      → SameInputs s t
      → t.icoll_busy ≡ (busy_set s).icoll_busy
      → t.vector_pending ≡ false
      → Driven s (drive_fiq t)
  unfolding drive_fiq fiq_line
  drive_fiq-Driven t same busy clear = ground (arith, fiq_pending_cong s t same)

  arbitrate-Driven :
      (c : Option Candidate) (a : Option ℕ)
      → s.vector_pending ≡ false
      → Driven s (arbitrate (sampled s) a c)
  unfolding arbitrate set_pending
  arbitrate-Driven (some c) a clear = drive_lines-Driven _ (refl, refl, refl, refl) refl
  arbitrate-Driven none none clear = drive_fiq-Driven _ (refl, refl, refl, refl) refl clear
  arbitrate-Driven none (some l) clear = drive_fiq-Driven _ (refl, refl, refl, refl) refl clear

update_gated-Driven :
    (s : Icoll) → has s.ctrl ctrl_gated ≡ true → Driven s (update_gated (busy_set s))
unfolding update_gated
update_gated-Driven s gated = ground arith

update_bypass-Driven :
    (s : Icoll)
    → has s.ctrl ctrl_gated ≡ false
    → has s.ctrl ctrl_bypass_fsm ≡ true
    → Driven s (update_bypass (busy_set s) (live_requests s))
unfolding update_bypass fiq_line
update_bypass-Driven s running bypass =
    ground (arith, fiq_pending_cong s (busy_set s) (refl, refl, refl, refl))

update-Driven : (s : Icoll) → is_multicycle s.fsm_state ≡ false → Driven s (update s)
update-Driven s single = update-Branches (Driven s) s (record {
  gated = update_gated-Driven s;
  bypass = update_bypass-Driven s;
  multicycle = λ g b multi. Bool-clash multi single;
  waiting = λ g b m w. drive_lines-Driven s g b (level_set s) (refl, refl, refl, refl) refl;
  arbitrated = λ g b m clear. arbitrate-Driven s g b _ _ clear;
})

-- Outside the two multicycle states, `stmp3770_icoll_update` leaves all three lines as functions
-- of the registers: the IRQ line is high exactly when a vector is pending, the final enable is
-- on and the machine is neither gated nor bypassed; the FIQ line exactly when an FIQ is due, its
-- final enable is on and the collector is not gated; the busy line when a request can be
-- delivered and the collector is not gated.
pub update-LinesFollow : (s : Icoll) → is_multicycle s.fsm_state ≡ false → LinesFollow (update s)
update-LinesFollow s single =
    let same = update-SameInputs s in
    let (irq_is, fiq_is, busy_is) = update-Driven s single in
    record {
      irq_follows = cc (same.0, irq_is);
      fiq_follows = cc (same.0, fiq_is, fiq_pending_cong s (update s) same);
      busy_follows = cc (
        same.0,
        busy_is,
        live_requests_cong s (update s) same,
        busy_from_cong s (update s) (live_requests (update s)) same,
      );
    }

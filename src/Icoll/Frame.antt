-- ===== src/Icoll/Frame.antt =====
-- What `stmp3770_icoll_update` leaves alone: the registers that software writes, and the levels in
-- service (hw/intc/stmp3770_icoll.c).
use emu_gii.Prelude.{ℕ, ◌≡◌, refl, List, Option, none, some}
use emu_gii.Icoll.State.{Icoll}
use emu_gii.Icoll.Arbiter.{Candidate}
use emu_gii.Icoll.Update.{
  update, update_gated, update_bypass, arbitrate, finish_multicycle, drive_lines, drive_fiq,
  set_pending,
}
use emu_gii.Icoll.Branches.{update-Branches}

pub record Regs : Type 0 where
  pub ctrl : ℕ
  pub vbase : ℕ
  pub priority : List ℕ
  pub debugflag : ℕ
  pub level_active : List ℕ

abbrev pub regs_of : Icoll → Regs
regs_of s = record {
  ctrl = s.ctrl;
  vbase = s.vbase;
  priority = s.priority;
  debugflag = s.debugflag;
  level_active = s.level_active;
}

finish-regs_of :
    (t : Icoll) (a : Option ℕ) (c : Option Candidate)
    → regs_of (finish_multicycle t a c) ≡ regs_of t
unfolding finish_multicycle drive_lines drive_fiq set_pending
finish-regs_of t a (some c) = refl
finish-regs_of t none none = refl
finish-regs_of t (some l) none = refl

arbitrate-regs_of :
    (t : Icoll) (a : Option ℕ) (c : Option Candidate) → regs_of (arbitrate t a c) ≡ regs_of t
unfolding arbitrate drive_lines drive_fiq set_pending
arbitrate-regs_of t a (some c) = refl
arbitrate-regs_of t none none = refl
arbitrate-regs_of t (some l) none = refl

-- The update changes no register, and takes no level in or out of service.
pub update-regs_of : (s : Icoll) → regs_of (update s) ≡ regs_of s
unfolding update_gated update_bypass drive_lines
update-regs_of s =
    update-Branches (λ t. regs_of t ≡ regs_of s) s
      (record {
        gated = λ g. refl;
        bypass = λ g b. refl;
        multicycle = λ g b m. finish-regs_of _ _ _;
        waiting = λ g b m w. refl;
        arbitrated = λ g b m w. arbitrate-regs_of _ _ _;
      })

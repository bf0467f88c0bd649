-- ===== src/Icoll/Invariant.antt =====
-- The invariant of the collector's state (hw/intc/stmp3770_icoll.c), and that the update of the
-- vector state machine restores it.
use emu_gii.Prelude.{
  ℕ, ◌<◌, ◌^◌, ◌≡◌, bit_and, Bool, true, false, Option, none, some, List, length, AllEntries,
  AllBelow, arith, Bool-clash, ◌&&◌, not, highest_below, IsHighest, highest_below-IsHighest,
}
use emu_gii.Bits.{bit, IsMasked}
use emu_gii.Icoll.State.{Icoll, Fsm, pending, source_routes_to_fiq}
use emu_gii.Icoll.Arbiter.{Candidate, live_requests, find_candidate, highest_active_level}
use emu_gii.Icoll.Update.{
  update, update_gated, update_bypass, arbitrate, drive_lines, drive_fiq, set_pending, or_zero,
  is_multicycle,
}
use emu_gii.Icoll.Control.{ctrl_rw_mask, priority_rw_mask, vbase_rw_mask}
use emu_gii.Icoll.Branches.{update-Branches, busy_set, level_set, sampled}
use emu_gii.Icoll.Priority.{Chooses, find_candidate-Chooses}

abbrev pub AllMasked : ℕ → List ℕ → Type 0
AllMasked mask = AllEntries (IsMasked mask)

-- The registers that software writes: their sizes and reserved bits, and the copy of the FIQ
-- enables. A level's entry is a source number plus one.
abbrev pub RegsFit : Icoll → Type 0
RegsFit s =
    IsMasked ctrl_rw_mask s.ctrl
    × IsMasked vbase_rw_mask s.vbase
    × (length s.priority ≡ 16)
    × AllMasked priority_rw_mask s.priority
    × (s.raw_status < 2 ^ 64)
    × (length s.level_active ≡ 4)
    × AllBelow 65 s.level_active
    × (s.fiq_enable ≡ bit_and s.ctrl 0xff)
    × (s.debugflag < 2 ^ 16)

-- What every caller of `update` grants.
pub record IsReady (s : Icoll) : Type 0 where
  pub regs : RegsFit s
  pub vector_fits : s.vector < 64
  pub selected_fits : s.selected_vector < 64
  pub saved_fits : s.saved_vector < 64
  pub single : is_multicycle s.fsm_state ≡ false
  pub waits : s.vector_pending ≡ true → s.fsm_state ≡ pending

abbrev pub is_pending : Fsm → Bool
is_pending pending = true
is_pending _ = false

-- What holds between two events: a vector is pending exactly in the pending state.
pub record IsValid (s : Icoll) : Type 0 where
  pub ready : IsReady s
  pub settled : is_pending s.fsm_state ≡ s.vector_pending

or_zero-lt : (n : ℕ) (p : ℕ → Bool) (o : Option ℕ) → 0 < n → IsHighest n p o → or_zero o < n
or_zero-lt n p none pos h = pos
or_zero-lt n p (some i) pos h = h.0

module _ (s : Icoll) (r : IsReady s) where
  gated-IsValid : IsValid (update_gated (busy_set s))
  unfolding update_gated
  gated-IsValid = ground arith

  bypass-IsValid : IsValid (update_bypass (busy_set s) (live_requests s))
  unfolding update_bypass
  bypass-IsValid =
      let shown = λ (i : ℕ). bit (live_requests s) i && not (source_routes_to_fiq (busy_set s) i) in
      ground (
        arith,
        or_zero-lt 64 shown (highest_below 64 shown) (omega arith)
            (highest_below-IsHighest 64 shown),
      )

  waiting-IsValid : s.vector_pending ≡ true → IsValid (drive_lines (level_set s))
  unfolding drive_lines
  waiting-IsValid w = ground arith

  -- The choice that reaches the machine is a source number.
  arbitrated-IsValid :
      (requests : ℕ) (a : Option ℕ) (c : Option Candidate)
      → Chooses s requests a 64 c
      → s.vector_pending ≡ false
      → IsValid (arbitrate (sampled s) a c)
  unfolding arbitrate drive_lines drive_fiq set_pending
  arbitrated-IsValid requests a (some c) best clear = ground (arith, best.below)
  arbitrated-IsValid requests none none best clear = ground arith
  arbitrated-IsValid requests (some l) none best clear = ground arith

-- `stmp3770_icoll_update` settles the machine: it may be called in any ready state, and leaves
-- the invariant.
pub update-IsValid : (s : Icoll) → IsReady s → IsValid (update s)
update-IsValid s r = update-Branches IsValid s (record {
  gated = λ g. gated-IsValid s r;
  bypass = λ g b. bypass-IsValid s r;
  multicycle = λ g b multi. Bool-clash multi r.single;
  waiting = λ g b m w. waiting-IsValid s r w;
  arbitrated = λ g b m clear.
      let active = highest_active_level s in
      arbitrated-IsValid s r (live_requests s) active (find_candidate s (live_requests s) active)
        (find_candidate-Chooses s (live_requests s) active) clear;
})

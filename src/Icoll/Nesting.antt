-- ===== src/Icoll/Nesting.antt =====
-- Which interrupts the collector delivers, and when (hw/intc/stmp3770_icoll.c).
use emu_gii.Prelude.{
  ℕ, ◌<◌, ◌≤◌, ◌≡◌, ◌≢◌, ◌⊎◌, refl, true, false, not, ◌||◌, Option, none, some, ◌==◌, get_or, arith,
  Bool-clash, IsHighest, highest_below-IsHighest,
}
use emu_gii.Bits.{bit}
use emu_gii.Reg.{has}
use emu_gii.Icoll.State.{
  Icoll, ctrl_gated, ctrl_bypass_fsm, ctrl_no_nesting, level_of, enabled, soft_irq,
  source_routes_to_fiq,
}
use emu_gii.Icoll.Arbiter.{Candidate, live_requests, highest_active_level, nesting_blocks}
use emu_gii.Icoll.Update.{
  update, update_gated, update_bypass, arbitrate, drive_lines, drive_fiq, set_pending,
  is_multicycle,
}
use emu_gii.Icoll.Priority.{eligible, IsBest, Chooses, find_candidate-Chooses}
use emu_gii.Icoll.Requests.{bit-live_requests}
use emu_gii.Icoll.Branches.{update-Branches, level_set, sampled}

-- `stmp3770_icoll_highest_active_level` finds the highest level with a source in service.
pub highest_active_level-IsHighest :
    (s : Icoll)
    → IsHighest 4 (λ level. not (get_or s.level_active level 0 == 0)) (highest_active_level s)
unfolding highest_active_level
highest_active_level-IsHighest s =
    highest_below-IsHighest 4 (λ level. not (get_or s.level_active level 0 == 0))

-- A source that nesting lets through is above every level in service, and nesting is on if any
-- level is.
record GoesAbove (s : Icoll) (level : ℕ) : Type 0 where
  above : (l : ℕ) → l < 4 → get_or s.level_active l 0 ≢ 0 → l < level
  nests : (l : ℕ) → l < 4 → get_or s.level_active l 0 ≢ 0 → has s.ctrl ctrl_no_nesting ≡ false

unblocked-GoesAbove :
    (s : Icoll) (level : ℕ) (a : Option ℕ)
    → IsHighest 4 (λ l. not (get_or s.level_active l 0 == 0)) a
    → nesting_blocks s a level ≡ false
    → GoesAbove s level
unfolding nesting_blocks
unblocked-GoesAbove s level none all_free free = record {
  above = λ l h busy. ground (arith, all_free l h);
  nests = λ l h busy. ground (arith, all_free l h);
}
unblocked-GoesAbove s level (some a) (below, active, free_above) free = record {
  above = λ l h busy. ground (arith, free_above l);
  nests = λ l h busy. ground arith;
}

-- What the collector may present to the CPU as its vector.
pub record Delivers (s : Icoll) (v : ℕ) : Type 0 where
  pub source : v < 64
  pub requests : (bit s.raw_status v || soft_irq s v) ≡ true
  pub is_enabled : enabled s v ≡ true
  pub not_fiq : source_routes_to_fiq s v ≡ false
  pub above : (l : ℕ) → l < 4 → get_or s.level_active l 0 ≢ 0 → l < level_of s v
  pub nests : (l : ℕ) → l < 4 → get_or s.level_active l 0 ≢ 0 → has s.ctrl ctrl_no_nesting ≡ false
  pub best :
      (j : ℕ)
      → j < 64
      → eligible s (live_requests s) (highest_active_level s) j ≡ true
      → (level_of s j < level_of s v) ⊎ ((level_of s j ≡ level_of s v) × (j ≤ v))

best-Delivers :
    (s : Icoll) (c : Candidate)
    → IsBest s (live_requests s) (highest_active_level s) 64 c
    → Delivers s c.vector
best-Delivers s c b =
    let active = highest_active_level s in
    let free : nesting_blocks s active (level_of s c.vector) ≡ false =
      ground (arith, b.is_eligible) in
    let over =
      unblocked-GoesAbove s (level_of s c.vector) active (highest_active_level-IsHighest s) free in
    record {
      source = b.below;
      requests = ground (arith, b.is_eligible, bit-live_requests s c.vector b.below);
      is_enabled = ground (arith, b.is_eligible);
      not_fiq = ground (arith, b.is_eligible);
      above = over.above;
      nests = over.nests;
      best = λ j h on. ground (arith, b.beats j h on, b.level_read);
    }

taken-Delivers :
    (s : Icoll) (a : Option ℕ) (c : Option Candidate)
    → Chooses s (live_requests s) (highest_active_level s) 64 c
    → s.vector_pending ≡ false
    → (arbitrate (sampled s) a c).vector_pending ≡ true
    → Delivers s (arbitrate (sampled s) a c).vector
unfolding arbitrate drive_lines drive_fiq set_pending
taken-Delivers s a (some c) best clear on = best-Delivers s c best
taken-Delivers s none none best clear on = Bool-clash on clear
taken-Delivers s (some l) none best clear on = Bool-clash on clear

-- If an update, outside the two multicycle states, makes a vector pending where none was, the
-- vector is a requested, enabled source that is not routed to the FIQ; its level is above every
-- level in service, and nesting is not switched off if there is one; and no other eligible source
-- has a higher level, or its level and a higher number.
pub update-Delivers :
    (s : Icoll)
    → is_multicycle s.fsm_state ≡ false
    → s.vector_pending ≡ false
    → (update s).vector_pending ≡ true
    → Delivers s (update s).vector
unfolding update_gated update_bypass
update-Delivers s single clear =
    update-Branches (λ t. t.vector_pending ≡ true → Delivers s t.vector) s
      (record {
        gated = λ g on. cc;
        bypass = λ g b on. cc;
        multicycle = λ g b m. Bool-clash m single;
        waiting = λ g b m w. Bool-clash w clear;
        arbitrated = λ g b m w. taken-Delivers s _ _ (find_candidate-Chooses s _ _) clear;
      })

chosen-pending :
    (s : Icoll) (a : Option ℕ) (c : Option Candidate) (j : ℕ)
    → Chooses s (live_requests s) (highest_active_level s) 64 c
    → j < 64
    → eligible s (live_requests s) (highest_active_level s) j ≡ true
    → (arbitrate (sampled s) a c).vector_pending ≡ true
unfolding arbitrate drive_lines set_pending
chosen-pending s a (some c) j best h on = refl
chosen-pending s a none j none_left h on = Bool-clash on (none_left j h)

waiting-pending :
    (s : Icoll) → s.vector_pending ≡ true → (drive_lines (level_set s)).vector_pending ≡ true
unfolding drive_lines
waiting-pending s w = w

-- With the collector neither gated nor bypassed, and outside the two multicycle states, if a
-- source below 64 is eligible then a vector is pending after the update.
pub update-pending :
    (s : Icoll) (j : ℕ)
    → is_multicycle s.fsm_state ≡ false
    → has s.ctrl ctrl_gated ≡ false
    → has s.ctrl ctrl_bypass_fsm ≡ false
    → j < 64
    → eligible s (live_requests s) (highest_active_level s) j ≡ true
    → (update s).vector_pending ≡ true
update-pending s j single running normal h on =
    update-Branches (λ t. t.vector_pending ≡ true) s
      (record {
        gated = λ g. Bool-clash g running;
        bypass = λ g b. Bool-clash b normal;
        multicycle = λ g b m. Bool-clash m single;
        waiting = λ g b m w. waiting-pending s w;
        arbitrated = λ g b m w. chosen-pending s _ _ j (find_candidate-Chooses s _ _) h on;
      })

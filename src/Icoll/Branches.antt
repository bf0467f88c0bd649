-- ===== src/Icoll/Branches.antt =====
-- The branches of `stmp3770_icoll_update` (hw/intc/stmp3770_icoll.c), as one rule: what holds of
-- the result of every branch, under its guards, holds of the result.
use emu_gii.Prelude.{ℕ, ◌≡◌, refl, true, false, not, ◌&&◌, Option, none, some, if_split, sym, subst}
use emu_gii.Reg.{has}
use emu_gii.Icoll.State.{
  Icoll, ctrl_gated, ctrl_bypass_fsm, level_of, enabled, source_routes_to_fiq,
}
use emu_gii.Icoll.Arbiter.{
  live_requests, find_candidate, busy_from, highest_active_level, consider, nesting_blocks,
}
use emu_gii.Icoll.Update.{
  update, update_gated, update_bypass, update_normal, update_open, arbitrate, finish_multicycle,
  drive_lines, is_multicycle, or_zero,
}

-- The state once the busy line is set, and once the level in service is read.
abbrev pub busy_set : Icoll → Icoll
busy_set s = record s { icoll_busy = busy_from s (live_requests s) && not (has s.ctrl ctrl_gated) }

abbrev pub level_set : Icoll → Icoll
level_set s = record (busy_set s) { current_level = or_zero (highest_active_level s) }

abbrev pub sampled : Icoll → Icoll
sampled s = record (level_set s) { request_holding = live_requests s }

-- What each branch has to show for `P` to hold after the update.
pub record Branches (P : Icoll → Type 0) (s : Icoll) : Type 0 where
  pub gated : has s.ctrl ctrl_gated ≡ true → P (update_gated (busy_set s))
  pub bypass :
      has s.ctrl ctrl_gated ≡ false
      → has s.ctrl ctrl_bypass_fsm ≡ true
      → P (update_bypass (busy_set s) (live_requests s))
  pub multicycle :
      has s.ctrl ctrl_gated ≡ false
      → has s.ctrl ctrl_bypass_fsm ≡ false
      → is_multicycle s.fsm_state ≡ true
      → P (
          finish_multicycle
            (level_set s)
            (highest_active_level s)
            (find_candidate s s.request_holding (highest_active_level s)))
  pub waiting :
      has s.ctrl ctrl_gated ≡ false
      → has s.ctrl ctrl_bypass_fsm ≡ false
      → is_multicycle s.fsm_state ≡ false
      → s.vector_pending ≡ true
      → P (drive_lines (level_set s))
  pub arbitrated :
      has s.ctrl ctrl_gated ≡ false
      → has s.ctrl ctrl_bypass_fsm ≡ false
      → is_multicycle s.fsm_state ≡ false
      → s.vector_pending ≡ false
      → P (
          arbitrate
            (sampled s)
            (highest_active_level s)
            (find_candidate s (live_requests s) (highest_active_level s)))

-- Which requests are live, which source is best and what level is in service do not depend on
-- the outputs, on the vector and on the state of the machine.
find_candidate-level_set :
    (s : Icoll) (requests : ℕ) (active : Option ℕ)
    → find_candidate (level_set s) requests active ≡ find_candidate s requests active
unfolding find_candidate consider nesting_blocks level_of enabled source_routes_to_fiq
find_candidate-level_set s requests none = refl
find_candidate-level_set s requests (some level) = refl

find_candidate-sampled :
    (s : Icoll) (requests : ℕ) (active : Option ℕ)
    → find_candidate (sampled s) requests active ≡ find_candidate s requests active
unfolding find_candidate consider nesting_blocks level_of enabled source_routes_to_fiq
find_candidate-sampled s requests none = refl
find_candidate-sampled s requests (some level) = refl

pub update-Branches : (P : Icoll → Type 0) (s : Icoll) → Branches P s → P (update s)
unfolding update update_normal update_open highest_active_level
update-Branches P s b = if_split P (has s.ctrl ctrl_gated) _ _ b.gated λ running.
    if_split P (has s.ctrl ctrl_bypass_fsm) _ _ (b.bypass running) λ normal.
      if_split P (is_multicycle s.fsm_state) _ _
        (λ multi.
          subst (λ c. P (finish_multicycle (level_set s) (highest_active_level s) c))
            (sym (find_candidate-level_set s s.request_holding (highest_active_level s)))
            (b.multicycle running normal multi))
        λ single. if_split P s.vector_pending _ _ (b.waiting running normal single) λ clear.
          subst (λ c. P (arbitrate (sampled s) (highest_active_level s) c))
            (sym (find_candidate-sampled s (live_requests s) (highest_active_level s)))
            (b.arbitrated running normal single clear)

-- ===== src/Icoll/Settle.antt =====
-- A second update with nothing changed in between is without effect (hw/intc/stmp3770_icoll.c).
use emu_gii.Prelude.{ℕ, ◌≡◌, refl, ◌∙◌, ap, ap₂, true, false, Option, none, some, Bool-clash}
use emu_gii.Reg.{has}
use emu_gii.Icoll.State.{
  Icoll, ctrl_gated, ctrl_bypass_fsm, enabled, soft_irq, source_routes_to_fiq,
}
use emu_gii.Icoll.Arbiter.{
  Candidate, live_requests, fiq_pending, find_candidate, busy_from, highest_active_level,
}
use emu_gii.Icoll.Update.{
  update, update_gated, update_bypass, arbitrate, drive_lines, drive_fiq, set_pending, fiq_line,
  irq_line, is_multicycle,
}
use emu_gii.Icoll.Inputs.{
  SameInputs, live_requests_cong, find_candidate_cong, highest_active_level_cong,
}
use emu_gii.Icoll.Branches.{update-Branches, busy_set, level_set, sampled}

-- `t` is not changed by an update.
abbrev pub IsSettled : Icoll → Type 0
IsSettled t = update t ≡ t

module _ (s : Icoll) where
  gated-IsSettled : has s.ctrl ctrl_gated ≡ true → IsSettled (update_gated (busy_set s))
  unfolding update_gated busy_from live_requests soft_irq enabled source_routes_to_fiq
  gated-IsSettled gated =
      let t = update_gated (busy_set s) in
      update-Branches (λ u. u ≡ t) t
        (record {
          gated = λ g. refl;
          bypass = λ g b. Bool-clash gated g;
          multicycle = λ g b m. Bool-clash gated g;
          waiting = λ g b m w. Bool-clash gated g;
          arbitrated = λ g b m w. Bool-clash gated g;
        })

  module _ (running : has s.ctrl ctrl_gated ≡ false) where
    bypass-IsSettled :
        has s.ctrl ctrl_bypass_fsm ≡ true → IsSettled (update_bypass (busy_set s) (live_requests s))
    unfolding update_bypass fiq_line fiq_pending busy_from live_requests soft_irq enabled
        source_routes_to_fiq
    bypass-IsSettled bypass =
        let t = update_bypass (busy_set s) (live_requests s) in
        update-Branches (λ u. u ≡ t) t
          (record {
            gated = λ g. Bool-clash g running;
            bypass = λ g b. refl;
            multicycle = λ g b m. Bool-clash bypass b;
            waiting = λ g b m w. Bool-clash bypass b;
            arbitrated = λ g b m w. Bool-clash bypass b;
          })

    module _ (normal : has s.ctrl ctrl_bypass_fsm ≡ false) where
      -- A state that waits for the CPU is settled once its lines and its level are right.
      update_waiting :
          is_multicycle s.fsm_state ≡ false
          → s.vector_pending ≡ true
          → update s ≡ drive_lines (level_set s)
      update_waiting single pending =
          update-Branches (λ u. u ≡ drive_lines (level_set s)) s
            (record {
              gated = λ g. Bool-clash g running;
              bypass = λ g b. Bool-clash b normal;
              multicycle = λ g b m. Bool-clash m single;
              waiting = λ g b m w. refl;
              arbitrated = λ g b m w. Bool-clash pending w;
            })

      -- A state with nothing pending is settled if no source is chosen and it looks idle.
      update_arbitrated :
          is_multicycle s.fsm_state ≡ false
          → s.vector_pending ≡ false
          → find_candidate s (live_requests s) (highest_active_level s) ≡ none
          → update s ≡ arbitrate (sampled s) (highest_active_level s) none
      update_arbitrated single clear nothing =
          let result = arbitrate (sampled s) (highest_active_level s) none in
          update-Branches (λ u. u ≡ result) s
            (record {
              gated = λ g. Bool-clash g running;
              bypass = λ g b. Bool-clash b normal;
              multicycle = λ g b m. Bool-clash m single;
              waiting = λ g b m w. Bool-clash w clear;
              arbitrated = λ g b m w. ap (arbitrate (sampled s) (highest_active_level s)) nothing;
            })

module _ (s : Icoll) (running : has s.ctrl ctrl_gated ≡ false)
    (normal : has s.ctrl ctrl_bypass_fsm ≡ false) where
  waiting-IsSettled :
      is_multicycle s.fsm_state ≡ false
      → s.vector_pending ≡ true
      → IsSettled (drive_lines (level_set s))
  unfolding drive_lines fiq_line irq_line fiq_pending busy_from live_requests soft_irq enabled
      source_routes_to_fiq highest_active_level
  waiting-IsSettled single pending =
      update_waiting (drive_lines (level_set s)) running normal single pending ∙ refl

  taken-IsSettled : (c : Candidate) (a : Option ℕ) → IsSettled (arbitrate (sampled s) a (some c))
  unfolding arbitrate set_pending drive_lines fiq_line irq_line fiq_pending busy_from live_requests
      soft_irq enabled source_routes_to_fiq highest_active_level
  taken-IsSettled c a =
      update_waiting (arbitrate (sampled s) a (some c)) running normal refl refl ∙ refl

  -- The same sources are eligible after the update as before it.
  nothing_left :
      (t : Icoll)
      → SameInputs s t
      → t.level_active ≡ s.level_active
      → find_candidate s (live_requests s) (highest_active_level s) ≡ none
      → find_candidate t (live_requests t) (highest_active_level t) ≡ none
  nothing_left t same levels nothing =
      find_candidate_cong s t (live_requests t) (highest_active_level t) same
      ∙ ap₂ (find_candidate s) (live_requests_cong s t same) (highest_active_level_cong s t levels)
      ∙ nothing

  idle-IsSettled :
      s.vector_pending ≡ false
      → (a : Option ℕ) → highest_active_level s ≡ a
      → find_candidate s (live_requests s) (highest_active_level s) ≡ none
      → IsSettled (arbitrate (sampled s) a none)
  unfolding arbitrate drive_fiq fiq_line fiq_pending busy_from live_requests soft_irq enabled
      source_routes_to_fiq highest_active_level
  idle-IsSettled clear none e nothing =
      let t = arbitrate (sampled s) none none in
      update_arbitrated t running normal refl clear
        (nothing_left t (refl, refl, refl, refl) refl nothing)
      ∙ ap (λ a. arbitrate (sampled t) a none) e
      ∙ refl
  idle-IsSettled clear (some l) e nothing =
      let t = arbitrate (sampled s) (some l) none in
      update_arbitrated t running normal refl clear
        (nothing_left t (refl, refl, refl, refl) refl nothing)
      ∙ ap (λ a. arbitrate (sampled t) a none) e
      ∙ refl

  arbitrated-IsSettled :
      s.vector_pending ≡ false
      → (c : Option Candidate) → find_candidate s (live_requests s) (highest_active_level s) ≡ c
      → IsSettled (arbitrate (sampled s) (highest_active_level s) c)
  arbitrated-IsSettled clear none e = idle-IsSettled clear (highest_active_level s) refl e
  arbitrated-IsSettled clear (some c) e = taken-IsSettled c (highest_active_level s)

-- Outside the two multicycle states, updating twice is updating once.
pub update-IsSettled :
    (s : Icoll) → is_multicycle s.fsm_state ≡ false → update (update s) ≡ update s
update-IsSettled s single = update-Branches IsSettled s (record {
  gated = gated-IsSettled s;
  bypass = bypass-IsSettled s;
  multicycle = λ g b m. Bool-clash m single;
  waiting = λ g b m w. waiting-IsSettled s g b m w;
  arbitrated = λ g b m w. arbitrated-IsSettled s g b w _ refl;
})

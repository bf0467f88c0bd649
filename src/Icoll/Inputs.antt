-- ===== src/Icoll/Inputs.antt =====
-- The searches of the collector read the registers alone, not the outputs and the state of the
-- vector machine (hw/intc/stmp3770_icoll.c).
use emu_gii.Prelude.{ℕ, ◌≡◌, Option, none, some}
use emu_gii.Icoll.State.{Icoll, level_of, enabled, soft_irq, source_routes_to_fiq}
use emu_gii.Icoll.Arbiter.{
  live_requests, fiq_pending, find_candidate, busy_from, highest_active_level, consider,
  nesting_blocks,
}

-- The requests, the FIQ and the busy test read the registers alone.
abbrev pub SameInputs : Icoll → Icoll → Type 0
SameInputs s t =
    (t.ctrl ≡ s.ctrl)
    × (t.priority ≡ s.priority)
    × (t.raw_status ≡ s.raw_status)
    × (t.fiq_enable ≡ s.fiq_enable)

pub live_requests_cong : (s t : Icoll) → SameInputs s t → live_requests t ≡ live_requests s
unfolding live_requests soft_irq
live_requests_cong s t (c, p, r, f) =
    λ i. live_requests (record s { priority = p i; raw_status = r i; fiq_enable = f i })

pub fiq_pending_cong : (s t : Icoll) → SameInputs s t → fiq_pending t ≡ fiq_pending s
unfolding fiq_pending live_requests soft_irq source_routes_to_fiq
fiq_pending_cong s t (c, p, r, f) =
    λ i. fiq_pending (record s { priority = p i; raw_status = r i; fiq_enable = f i })

pub busy_from_cong :
    (s t : Icoll) (requests : ℕ) → SameInputs s t → busy_from t requests ≡ busy_from s requests
unfolding busy_from source_routes_to_fiq enabled
busy_from_cong s t requests (c, p, r, f) =
    λ i. busy_from (record s { priority = p i; raw_status = r i; fiq_enable = f i }) requests

pub find_candidate_cong :
    (s t : Icoll) (requests : ℕ) (active : Option ℕ)
    → SameInputs s t
    → find_candidate t requests active ≡ find_candidate s requests active
unfolding find_candidate consider nesting_blocks level_of enabled source_routes_to_fiq
find_candidate_cong s t requests none (c, p, r, f) = λ i.
    find_candidate (record s { ctrl = c i; priority = p i; raw_status = r i; fiq_enable = f i })
      requests none
find_candidate_cong s t requests (some level) (c, p, r, f) = λ i.
    find_candidate (record s { ctrl = c i; priority = p i; raw_status = r i; fiq_enable = f i })
      requests (some level)

pub highest_active_level_cong :
    (s t : Icoll)
    → t.level_active ≡ s.level_active
    → highest_active_level t ≡ highest_active_level s
unfolding highest_active_level
highest_active_level_cong s t e = λ i. highest_active_level (record s { level_active = e i })

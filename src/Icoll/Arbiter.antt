-- ===== src/Icoll/Arbiter.antt =====
-- The searches over the 64 sources and the 4 levels of hw/intc/stmp3770_icoll.c.
use emu_gii.Prelude.{
  ℕ, ◌+◌, ◌^◌, bit_or, Bool, false, not, ◌&&◌, ◌||◌, Option, none, some, leb, ltb, ◌==◌,
  if◌then◌else◌, get_or, for_below, any_below, highest_below,
}
use emu_gii.Bits.{bit}
use emu_gii.Reg.{has}
use emu_gii.Icoll.State.{
  Icoll, ctrl_bypass_fsm, ctrl_no_nesting, level_of, enabled, soft_irq, source_routes_to_fiq,
}

-- `stmp3770_icoll_highest_active_level`; `none` is its -1.
unfoldable pub highest_active_level : Icoll → Option ℕ
highest_active_level s = highest_below 4 (λ level. not (get_or s.level_active level 0 == 0))

-- `stmp3770_icoll_live_requests`
unfoldable pub live_requests : Icoll → ℕ
live_requests s =
    for_below 64
      (λ source requests. if soft_irq s source then bit_or requests (2 ^ source) else requests)
      s.raw_status

unfoldable pub debug_requests : Icoll → ℕ
debug_requests s = if has s.ctrl ctrl_bypass_fsm then live_requests s else s.request_holding

-- `stmp3770_icoll_fiq_pending`
unfoldable pub fiq_pending : Icoll → Bool
fiq_pending s =
    let requests = live_requests s in
    any_below 8 (λ k. source_routes_to_fiq s (28 + k) && bit requests (28 + k))

-- The outputs of `stmp3770_icoll_find_candidate`; the function's `has_candidate` is `some`.
pub record Candidate : Type 0 where
  pub vector : ℕ
  pub level : ℕ

-- With a level in service, only a higher level may interrupt, and none if nesting is off.
unfoldable pub nesting_blocks : Icoll → Option ℕ → ℕ → Bool
nesting_blocks s none level = false
nesting_blocks s (some active) level = has s.ctrl ctrl_no_nesting || leb level active

unfoldable pub keep_better : ℕ → ℕ → Option Candidate → Option Candidate
keep_better i level none = some (record { vector = i; level = level })
keep_better i level (some c) =
    if ltb c.level level || (level == c.level && ltb c.vector i)
    then some (record { vector = i; level = level })
    else some c

-- The body of the loop of `stmp3770_icoll_find_candidate`.
unfoldable pub consider : Icoll → ℕ → Option ℕ → ℕ → Option Candidate → Option Candidate
consider s requests active_level i best =
    if source_routes_to_fiq s i
    then best
    else if not (bit requests i) || not (enabled s i)
    then best
    else if nesting_blocks s active_level (level_of s i)
    then best
    else keep_better i (level_of s i) best

unfoldable pub find_candidate : Icoll → ℕ → Option ℕ → Option Candidate
find_candidate s requests active_level = for_below 64 (consider s requests active_level) none

-- `stmp3770_icoll_busy_from`
unfoldable pub busy_from : Icoll → ℕ → Bool
busy_from s requests =
    any_below 64 (λ i. bit requests i && (source_routes_to_fiq s i || enabled s i))

-- ===== src/Icoll/Update.antt =====
-- `stmp3770_icoll_update` of hw/intc/stmp3770_icoll.c: the vector state machine and the three
-- output lines, recomputed after every change of the registers.
use emu_gii.Prelude.{
  ℕ, Bool, true, false, not, ◌&&◌, Option, none, some, if◌then◌else◌, highest_below,
}
use emu_gii.Bits.{bit}
use emu_gii.Reg.{has}
use emu_gii.Icoll.State.{
  Icoll, Fsm, idle, multicycle1, multicycle2, pending, isr_running, ctrl_gated, ctrl_bypass_fsm,
  ctrl_fiq_final_enable, ctrl_irq_final_enable, source_routes_to_fiq,
}
use emu_gii.Icoll.Arbiter.{
  Candidate, highest_active_level, live_requests, fiq_pending, find_candidate, busy_from,
}

-- `stmp3770_icoll_set_pending`
unfoldable pub set_pending : Icoll → Icoll
set_pending s = record s { fsm_state = pending; vector = s.selected_vector; vector_pending = true }

-- The levels that `qemu_set_irq(s->fiq, ..)` and `qemu_set_irq(s->irq, ..)` set.
unfoldable pub fiq_line : Icoll → Bool
fiq_line s = has s.ctrl ctrl_fiq_final_enable && fiq_pending s

unfoldable pub irq_line : Icoll → Bool
irq_line s = has s.ctrl ctrl_irq_final_enable && s.vector_pending

-- The final two calls of the branches that leave a vector pending.
unfoldable pub drive_lines : Icoll → Icoll
drive_lines s = record s { fiq = fiq_line s; irq = irq_line s }

-- The final two calls of the branches that leave none.
unfoldable pub drive_fiq : Icoll → Icoll
drive_fiq s = record s { fiq = fiq_line s; irq = false }

-- The branch under `CTRL_SFTRST | CTRL_CLKGATE`.
unfoldable pub update_gated : Icoll → Icoll
update_gated s = record s {
  multicycle_timer = none;
  fsm_state = idle;
  selected_vector = 0;
  saved_vector = 0;
  vector = 0;
  vector_pending = false;
  request_holding = 0;
  irq = false;
  fiq = false;
}

abbrev pub or_zero : Option ℕ → ℕ
or_zero none = 0
or_zero (some n) = n

-- The branch under `CTRL_BYPASS_FSM`.
unfoldable pub update_bypass : Icoll → ℕ → Icoll
update_bypass s live = record s {
  multicycle_timer = none;
  fsm_state = idle;
  selected_vector = 0;
  saved_vector = 0;
  vector_pending = false;
  request_holding = live;
  vector = or_zero (highest_below 64 (λ i. bit live i && not (source_routes_to_fiq s i)));
  irq = false;
  fiq = fiq_line s;
}

-- The branch of the two multicycle states: the closed snapshot is looked at again.
unfoldable pub finish_multicycle : Icoll → Option ℕ → Option Candidate → Icoll
finish_multicycle s active (some c) =
    drive_lines (set_pending (record s { selected_vector = c.vector; multicycle_timer = none }))
finish_multicycle s (some level) none =
    drive_fiq
      (record s { multicycle_timer = none; fsm_state = isr_running; vector = s.saved_vector })
finish_multicycle s none none =
    drive_fiq (record s { multicycle_timer = none; fsm_state = idle; vector = 0 })

-- The open holding register: a candidate becomes pending at once.
unfoldable pub arbitrate : Icoll → Option ℕ → Option Candidate → Icoll
arbitrate s active (some c) =
    drive_lines (set_pending (record s { saved_vector = s.vector; selected_vector = c.vector }))
arbitrate s none none = drive_fiq (record s { fsm_state = idle; vector = 0 })
arbitrate s (some level) none = drive_fiq (record s { fsm_state = isr_running })

-- Normal operation, from `active_level = ..` on.
unfoldable pub update_open : Icoll → ℕ → Option ℕ → Icoll
update_open s live active =
    if s.vector_pending
    then drive_lines s
    else let t = record s { request_holding = live } in
      arbitrate t active (find_candidate t t.request_holding active)

abbrev pub is_multicycle : Fsm → Bool
is_multicycle multicycle1 = true
is_multicycle multicycle2 = true
is_multicycle _ = false

unfoldable pub update_normal : Icoll → ℕ → Icoll
update_normal s live =
    let active = highest_active_level s in
    let t = record s { current_level = or_zero active } in
    if is_multicycle t.fsm_state
    then finish_multicycle t active (find_candidate t t.request_holding active)
    else update_open t live active

unfoldable pub update : Icoll → Icoll
update s =
    let live = live_requests s in
    let t = record s { icoll_busy = busy_from s live && not (has s.ctrl ctrl_gated) } in
    if has t.ctrl ctrl_gated
    then update_gated t
    else if has t.ctrl ctrl_bypass_fsm
    then update_bypass t live
    else update_normal t live

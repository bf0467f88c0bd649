-- ===== src/Icoll/Control.antt =====
-- The wires and the control register of hw/intc/stmp3770_icoll.c: the interrupt inputs, the timers'
-- callbacks, the reset, the entry into service and the writes to CTRL.
use emu_gii.Prelude.{
  ℕ, ◌+◌, ◌-◌, ◌*◌, ◌/◌, ◌^◌, bit_and, bit_or, Bool, true, false, not, ◌&&◌, none, some, ◌==◌,
  if◌then◌else◌, set, replicate,
}
use emu_gii.Bits.{complement}
use emu_gii.Reg.{has, Alias, apply_sct}
use emu_gii.Icoll.State.{Icoll, idle, ctrl_sftrst, ctrl_clkgate, ctrl_bypass_fsm, level_of}
use emu_gii.Icoll.Update.{is_multicycle, irq_line, set_pending, update}

abbrev pub ctrl_rw_mask : ℕ
ctrl_rw_mask = 0xc0ff_00ff

abbrev pub priority_rw_mask : ℕ
priority_rw_mask = 0x0f0f_0f0f

abbrev pub vbase_rw_mask : ℕ
vbase_rw_mask = 0xffff_fffc

abbrev pub reset_clock_hz : ℕ
reset_clock_hz = 24_000_000

-- `stmp3770_icoll_sftrst_delay_ns`: four clocks, rounded up.
unfoldable pub sftrst_delay_ns : Icoll → ℕ
sftrst_delay_ns s =
    let hz = if s.hclk_hz == 0 then reset_clock_hz else s.hclk_hz in
    (4 * 1_000_000_000 + hz - 1) / hz

unfoldable pub set_hclk_rate : Icoll → ℕ → Icoll
set_hclk_rate s hz = record s { hclk_hz = if hz == 0 then reset_clock_hz else hz }

-- `stmp3770_icoll_enter_service`
unfoldable pub enter_service : Icoll → Icoll
enter_service s =
    let level = level_of s s.vector in
    if not s.vector_pending then s else record s {
      level_active = set s.level_active level (s.vector + 1);
      current_level = level;
      vector_pending = false;
    }

unfoldable pub reset : Icoll → Icoll
reset s = record s {
  ctrl = 0xc003_0000;
  vbase = 0;
  vector = 0;
  vector_pending = false;
  fsm_state = idle;
  selected_vector = 0;
  saved_vector = 0;
  raw_status = 0;
  request_holding = 0;
  current_level = 0;
  fiq_enable = 0;
  debugflag = 0;
  hclk_hz = reset_clock_hz;
  sftrst_timer = none;
  multicycle_timer = none;
  priority = replicate 16 0;
  level_active = replicate 4 0;
}

-- The callback of `sftrst_timer`.
unfoldable pub finish_soft_reset : Icoll → Icoll
finish_soft_reset s = update (reset (record s { sftrst_timer = none }))

-- The callback of `multicycle_timer`.
unfoldable pub multicycle_tick : Icoll → Icoll
multicycle_tick s =
    let t = set_pending (record s { multicycle_timer = none }) in
    if is_multicycle s.fsm_state then record t { irq = irq_line t } else s

-- An interrupt input, `stmp3770_icoll_set_irq`: `raw_status` has 64 bits.
unfoldable pub set_irq : Icoll → ℕ → Bool → Icoll
set_irq s source true = update (record s { raw_status = bit_or s.raw_status (2 ^ source) })
set_irq s source false =
    update (record s { raw_status = bit_and s.raw_status (complement 64 (2 ^ source)) })

-- `now` is `qemu_clock_get_ns(QEMU_CLOCK_VIRTUAL)`.
unfoldable pub write_ctrl : ℕ → Icoll → ℕ → Alias → Icoll
write_ctrl now s val alias =
    let next_ctrl = bit_and (apply_sct alias s.ctrl val) ctrl_rw_mask in
    let t = record s {
      ctrl = next_ctrl;
      fiq_enable = bit_and next_ctrl 0xff;
      vector_pending =
          if not (has s.ctrl ctrl_bypass_fsm) && has next_ctrl ctrl_bypass_fsm
          then false
          else s.vector_pending;
    } in
    if not (has next_ctrl ctrl_sftrst)
    then record t { sftrst_timer = none }
    else if has next_ctrl ctrl_clkgate
    then record t { sftrst_timer = none }
    else if not (has s.ctrl ctrl_sftrst)
    then record t { sftrst_timer = some (now + sftrst_delay_ns t) }
    else t

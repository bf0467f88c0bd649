-- ===== src/Icoll/State.antt =====
-- `struct STMP3770ICOLLState` of hw/intc/stmp3770_icoll.c, and what the device reads off its
-- registers for one interrupt source.
use emu_gii.Prelude.{
  ℕ, ◌+◌, ◌-◌, ◌*◌, ◌/◌, ◌%◌, ◌^◌, bit_and, Bool, ◌&&◌, Option, List, leb, get_or,
}
use emu_gii.Bits.{bit}
use emu_gii.Reg.{◌>>>◌}

-- `ICOLL_FSM_*`
pub data Fsm : Type 0 where
  idle multicycle1 multicycle2 pending isr_running : Fsm

-- A `qemu_irq` output is the level last set; a `QEMUTimer` is its deadline in nanoseconds.
pub record Icoll : Type 0 where
  pub irq : Bool
  pub fiq : Bool
  pub icoll_busy : Bool
  pub ctrl : ℕ
  pub vbase : ℕ
  pub priority : List ℕ
  pub raw_status : ℕ
  pub request_holding : ℕ
  pub level_active : List ℕ
  pub current_level : ℕ
  pub fiq_enable : ℕ
  pub debugflag : ℕ
  pub vector : ℕ
  pub vector_pending : Bool
  pub fsm_state : Fsm
  pub selected_vector : ℕ
  pub saved_vector : ℕ
  pub hclk_hz : ℕ
  pub sftrst_timer : Option ℕ
  pub multicycle_timer : Option ℕ

abbrev pub ctrl_sftrst : ℕ
ctrl_sftrst = 2 ^ 31

abbrev pub ctrl_clkgate : ℕ
ctrl_clkgate = 2 ^ 30

abbrev pub ctrl_gated : ℕ
ctrl_gated = 0xc000_0000

abbrev pub ctrl_bypass_fsm : ℕ
ctrl_bypass_fsm = 2 ^ 20

abbrev pub ctrl_no_nesting : ℕ
ctrl_no_nesting = 2 ^ 19

abbrev pub ctrl_arm_rse_mode : ℕ
ctrl_arm_rse_mode = 2 ^ 18

abbrev pub ctrl_fiq_final_enable : ℕ
ctrl_fiq_final_enable = 2 ^ 17

abbrev pub ctrl_irq_final_enable : ℕ
ctrl_irq_final_enable = 2 ^ 16

-- The four byte-wide fields of `priority[source / 4]`: bits 1:0 are the level, bit 2 the enable
-- and bit 3 the software interrupt.
abbrev pub field_of : ℕ → ℕ
field_of source = source % 4 * 8

abbrev pub priority_of : Icoll → ℕ → ℕ
priority_of s source = get_or s.priority (source / 4) 0

unfoldable pub level_of : Icoll → ℕ → ℕ
level_of s source = bit_and (priority_of s source >>> field_of source) 3

unfoldable pub enabled : Icoll → ℕ → Bool
enabled s source = bit (priority_of s source) (field_of source + 2)

unfoldable pub soft_irq : Icoll → ℕ → Bool
soft_irq s source = bit (priority_of s source) (field_of source + 3)

-- `stmp3770_icoll_source_routes_to_fiq`
unfoldable pub source_routes_to_fiq : Icoll → ℕ → Bool
source_routes_to_fiq s source = leb 28 source && leb source 35 && bit s.fiq_enable (source - 28)

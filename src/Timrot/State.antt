-- ===== src/Timrot/State.antt =====
-- The state of hw/timer/stmp3770_timer.c, its masks, and the interrupt lines.
use emu_gii.Prelude.{ℕ, ◌^◌, bit_and, Bool, ◌&&◌, ◌==◌, leb, if◌then◌else◌}
use emu_gii.Bits.{bit}
use emu_gii.Reg.{◌>>>◌, has}

-- QEMU's ptimer, between the begin and the commit of a transaction: what the code calls. With the
-- policy that it asks for, none of these runs the callback.
pub record PtimerOps (P : Type 0) : Type 0 where
  pub get_count : P → ℕ
  pub set_count : P → ℕ → P
  pub set_limit : P → ℕ → Bool → P
  pub set_freq : P → ℕ → P
  pub run : P → Bool → P
  pub stop : P → P

-- `STMP3770TimerChannel`, with the level of its interrupt line
pub record Channel (P : Type 0) : Type 0 where
  pub timctrl : ℕ
  pub fixed_count : ℕ
  pub ptimer : P
  pub running : Bool
  pub irq : Bool

-- The fields `rotary_stable_*`, `rotary_candidate_*` and `rotary_samples_*` of an input.
pub record Filter : Type 0 where
  pub stable : Bool
  pub candidate : Bool
  pub samples : ℕ

-- The decoder's fields: `rotary_state`, the filters of both inputs, `rotary_initialized` and
-- `rotary_error`.
pub record Rotary : Type 0 where
  pub state : ℕ
  pub filter_a : Filter
  pub filter_b : Filter
  pub initialized : Bool
  pub error : Bool

-- The fields of the measurement of duty cycles.
pub record Duty : Type 0 where
  pub running_count : ℕ
  pub low_count : ℕ
  pub high_count : ℕ
  pub have_high : Bool
  pub test_signal_level : Bool
  pub test_signal_seen : Bool

pub record Timrot (P : Type 0) : Type 0 where
  pub rotctrl : ℕ
  pub rotcount : ℕ
  pub rotary_tick : P
  pub pwm_input : ℕ → Bool
  pub rotary : Rotary
  pub duty : Duty
  pub timer : ℕ → Channel P
  pub version : ℕ

abbrev pub num_timers : ℕ
num_timers = 4

abbrev pub num_pwm_inputs : ℕ
num_pwm_inputs = 5

abbrev pub rotctrl_sftrst : ℕ
rotctrl_sftrst = 2 ^ 31

abbrev pub rotctrl_clkgate : ℕ
rotctrl_clkgate = 2 ^ 30

abbrev pub rotctrl_present_mask : ℕ
rotctrl_present_mask = 0x3e00_0000

abbrev pub rotctrl_writable_mask : ℕ
rotctrl_writable_mask = 0xc03f_1f77

abbrev pub timctrl_irq : ℕ
timctrl_irq = 2 ^ 15

abbrev pub timctrl3_duty_valid : ℕ
timctrl3_duty_valid = 2 ^ 10

-- `s->rotctrl & (ROTCTRL_SFTRST | ROTCTRL_CLKGATE)`
abbrev pub is_gated : ℕ → Bool
is_gated rotctrl = has rotctrl 0xc000_0000

-- The select codes of the PWM inputs are 1 to 5.
abbrev pub is_pwm : ℕ → Bool
is_pwm select = leb 1 select && leb select 5

-- IRQ and IRQ_EN
unfoldable pub irq_level : ℕ → Bool
irq_level timctrl = bit_and timctrl 0xc000 == 0xc000

module _ {P : Type 0} where
  abbrev pub select_of : Channel P → ℕ
  select_of t = bit_and (t.timctrl >>> 0) 0xF

  abbrev pub is_duty_cycle : Channel P → ℕ → Bool
  is_duty_cycle t idx = idx == 3 && bit t.timctrl 9

  -- A change of `s->timer[idx]`.
  unfoldable pub change : Timrot P → ℕ → (Channel P → Channel P) → Timrot P
  change s idx f = record s { timer = λ i. if i == idx then f (s.timer i) else s.timer i }

  -- `stmp3770_timer_update_irq` on its channel
  unfoldable pub update_irq : Channel P → Channel P
  unfolding irq_level
  update_irq t = record t { irq = irq_level t.timctrl }

  abbrev pub external_source : Channel P → Bool
  external_source t = leb 1 (select_of t) && leb (select_of t) 7

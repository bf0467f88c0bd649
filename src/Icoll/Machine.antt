-- ===== src/Icoll/Machine.antt =====
-- The collector as a state machine: whatever the CPU, the wires and the timers do to it, in any
-- order (hw/intc/stmp3770_icoll.c).
use emu_gii.Prelude.{ℕ, ◌<◌, ◌≡◌, Bool}
use emu_gii.Icoll.State.{Icoll}
use emu_gii.Icoll.Control.{reset, finish_soft_reset, multicycle_tick, set_irq, set_hclk_rate}
use emu_gii.Icoll.Bus.{read, write}
use emu_gii.Icoll.Invariant.{IsValid}
use emu_gii.Icoll.Preserve.{
  reset-IsValid, set_irq-IsValid, finish_soft_reset-IsValid, set_hclk_rate-IsValid,
  multicycle_tick_idle,
}
use emu_gii.Icoll.Accesses.{write-IsValid, read-IsValid}

-- One entry of the device: a bus access at a time, an interrupt input, a timer that expires, the
-- clock control's notification, or a device reset.
pub data Event : Type 0 where
  bus_read : ℕ → ℕ → Event
  bus_write : ℕ → ℕ → ℕ → ℕ → Event
  irq_input : ℕ → Bool → Event
  sftrst_expires multicycle_expires device_reset : Event
  hclk_changes : ℕ → Event

unfoldable pub step : Icoll → Event → Icoll
step s (Event.bus_read offset size) = (read s offset size).state
step s (Event.bus_write now offset value size) = write now s offset value size
step s (Event.irq_input source level) = set_irq s source level
step s Event.sftrst_expires = finish_soft_reset s
step s Event.multicycle_expires = multicycle_tick s
step s Event.device_reset = reset s
step s (Event.hclk_changes hz) = set_hclk_rate s hz

-- The device has 64 interrupt inputs.
abbrev pub IsWired : Event → Type 0
IsWired (Event.irq_input source level) = source < 64
IsWired _ = Unit {0}

-- The states that the device may be in after a reset and any events.
pub data Reach (power_on : Icoll) : Icoll → Type 0 where
  booted : Reach power_on (reset power_on)
  next : {s : Icoll} (e : Event) → IsWired e → Reach power_on s → Reach power_on (step s e)

pub step-IsValid : (s : Icoll) (e : Event) → IsWired e → IsValid s → IsValid (step s e)
unfolding step
step-IsValid s (Event.bus_read offset size) w v = read-IsValid s offset size v
step-IsValid s (Event.bus_write now offset value size) w v = write-IsValid now s offset value size v
step-IsValid s (Event.irq_input source level) w v = set_irq-IsValid s source level w v
step-IsValid s Event.sftrst_expires w v = finish_soft_reset-IsValid s
step-IsValid s Event.multicycle_expires w v = rw (multicycle_tick_idle s v) v
step-IsValid s Event.device_reset w v = reset-IsValid s
step-IsValid s (Event.hclk_changes hz) w v = set_hclk_rate-IsValid s hz v

-- Every state reached from a device reset by any register accesses, interrupt inputs below 64,
-- timer callbacks, clock notifications and resets satisfies the invariant of the collector.
pub Reach-IsValid : {power_on s : Icoll} → Reach power_on s → IsValid s
Reach-IsValid booted = reset-IsValid _
Reach-IsValid (next e wired r) = step-IsValid _ e wired (Reach-IsValid r)

-- In every state reached from a device reset the multicycle callback changes nothing.
pub Reach-multicycle_idle :
    {power_on s : Icoll} → Reach power_on s → step s Event.multicycle_expires ≡ s
unfolding step
Reach-multicycle_idle {s} r = multicycle_tick_idle s (Reach-IsValid r)

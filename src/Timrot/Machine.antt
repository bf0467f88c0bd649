-- ===== src/Timrot/Machine.antt =====
-- The timers and the decoder as a state machine: whatever the CPU, the inputs and the clocks do, in
-- any order (hw/timer/stmp3770_timer.c).
use emu_gii.Prelude.{ℕ, Bool, ◌==◌, if_split}
use emu_gii.Reg.{u32, alias_exact, base_of}
use emu_gii.Timrot.State.{PtimerOps, Timrot, change}
use emu_gii.Timrot.Count.{tick, rotary_tick, set_pwm_input}
use emu_gii.Timrot.Bus.{decode, read_register, read, reset, write}
use emu_gii.Timrot.Invariant.{IsValid, change-IsValidBut}
use emu_gii.Timrot.Written.{
  set_pwm_input-IsValid, reset-IsValid, write_register-IsValid, read_register-IsValid,
}
use emu_gii.Timrot.Keeps.{tick-IsValid, rotary_tick-IsValid}

-- One entry of the device. `elapses` is time that passes for a timer's QEMU clock.
pub data Event (P : Type 0) : Type 0 where
  bus_read : ℕ → ℕ → Event P
  bus_write : ℕ → ℕ → ℕ → Event P
  pwm_changes : ℕ → Bool → Event P
  timer_expires : ℕ → Event P
  rotary_sample device_reset : Event P
  elapses : ℕ → P → Event P

unfoldable pub step : {P : Type 0} → PtimerOps P → Timrot P → Event P → Timrot P
unfolding change
step pt s (Event.bus_read offset size) = (read pt s offset size).state
step pt s (Event.bus_write offset value size) = write pt s offset value size
step pt s (Event.pwm_changes channel level) = set_pwm_input pt s channel level
step pt s (Event.timer_expires idx) = tick pt s idx
step pt s Event.rotary_sample = rotary_tick pt s
step pt s Event.device_reset = reset pt s
step pt s (Event.elapses idx p) = change s idx (λ t. record t { ptimer = p })

-- The states that the device may be in after a reset and any events.
pub data Reach {P : Type 0} (pt : PtimerOps P) (power_on : Timrot P) : Timrot P → Type 0 where
  booted : Reach pt power_on (reset pt power_on)
  next : {s : Timrot P} (e : Event P) → Reach pt power_on s → Reach pt power_on (step pt s e)

step-IsValid :
    {P : Type 0} (pt : PtimerOps P) (s : Timrot P) (e : Event P) → IsValid s → IsValid (step pt s e)
unfolding step read write
step-IsValid pt s (Event.bus_read offset size) v =
    if_split (λ r. IsValid r.state) (size == 4) (read_register pt s (decode (base_of offset)))
      (record { state = s; value = 0 }) (λ _. read_register-IsValid pt s _ v) (λ _. v)
step-IsValid pt s (Event.bus_write offset value size) v =
    if_split IsValid (size == 4) _ _
      (λ _.
        write_register-IsValid pt s (decode (base_of offset)) (alias_exact offset) (u32 value) v)
      (λ _. v)
step-IsValid pt s (Event.pwm_changes channel level) v = set_pwm_input-IsValid pt s channel level v
step-IsValid pt s (Event.timer_expires idx) v = tick-IsValid pt 4 s idx v
step-IsValid pt s Event.rotary_sample v = rotary_tick-IsValid pt 4 s v
step-IsValid pt s Event.device_reset v = reset-IsValid pt s
step-IsValid pt s (Event.elapses idx p) v =
    change-IsValidBut 4 s idx (λ t. record t { ptimer = p }) (λ t h. record { bound = h.bound })
      (λ _ t f. record { line = f.line }) v

-- In every state reached from a device reset by any register accesses, changes of the inputs, timer
-- callbacks, samples, resets and time, whatever the state before it, each timer's interrupt line is
-- raised exactly when IRQ and IRQ_EN are set, and the fixed counts, ROTCOUNT and the measured
-- counts have 16 bits.
pub Reach-LinesFollow :
    {P : Type 0} (pt : PtimerOps P) {power_on s : Timrot P} → Reach pt power_on s → IsValid s
Reach-LinesFollow pt booted = reset-IsValid pt _
Reach-LinesFollow pt (next e r) = step-IsValid pt _ e (Reach-LinesFollow pt r)

-- ===== src/Dma/Kept.antt =====
-- What each step of a chain leaves of a channel's semaphore and of its loaded command, and how
-- retiring and loading change them (hw/dma/stmp3770_dma.c).
use emu_gii.Prelude.{
  ℕ, ◌-◌, ◌<◌, ◌≤◌, ◌≡◌, refl, ◌∙◌, ap, Bool, true, not, ◌&&◌, length, length-set, get_or-set_self,
  ◌==◌, arith, if_split, Bool-clash, if◌then◌else◌,
}
use emu_gii.Reg.{u32, ◌<<<◌}
use emu_gii.Dma.Host.{Host}
use emu_gii.Dma.State.{Channel, Dma, channel, channel_zero, put_channel, phore_of, update_irq}
use emu_gii.Dma.Command.{Machine, cmd_semaphore, cmd_irqoncmplt, cmd_command, is_transfer}
use emu_gii.Dma.Transfer.{
  Sensed, sense_step, transfer, bus_error, Moved, move_to_memory, move_from_memory, xfer_length,
  remaining_debug2,
}
use emu_gii.Dma.Run.{change_channel, take_semaphore, completion_irq, retire, advanced, advance}
use emu_gii.Dma.Invariant.{phore_of-sema}

-- From `s` to `t`, channel `i` keeps its semaphore and its loaded command.
abbrev pub KeepsCommand : ℕ → Dma → Dma → Type 0
KeepsCommand i s t =
    (length t.ch ≡ length s.ch)
    × ((channel t i).sema ≡ (channel s i).sema)
    × ((channel t i).loaded_cmd ≡ (channel s i).loaded_cmd)

pub KeepsCommand-trans :
    (i : ℕ) (s t u : Dma) → KeepsCommand i s t → KeepsCommand i t u → KeepsCommand i s u
KeepsCommand-trans i s t u (a, b, c) (d, e, f) = (d ∙ a, e ∙ b, f ∙ c)

pub put_channel-Keeps :
    (i : ℕ) (c : Channel) (s : Dma)
    → i < length s.ch
    → c.sema ≡ (channel s i).sema
    → c.loaded_cmd ≡ (channel s i).loaded_cmd
    → KeepsCommand i s (put_channel s i c)
put_channel-Keeps i c s h same same' =
    let now = get_or-set_self s.ch i c channel_zero h in
    (
      length-set s.ch i c,
      ap (λ (d : Channel). d.sema) now ∙ same,
      ap (λ (d : Channel). d.loaded_cmd) now ∙ same',
    )

pub advance-Keeps :
    (i cmd : ℕ) (branch : Bool) (s : Dma)
    → i < length s.ch
    → KeepsCommand i s (advance i cmd branch s)
unfolding advance
advance-Keeps i cmd branch s h =
    if_split (KeepsCommand i s) branch _ _ (λ _. (refl, refl, refl))
      (λ _. put_channel-Keeps i (advanced cmd (channel s i)) s h refl refl)

module _ {W : Type 0} (h : Host W) (i : ℕ) where
  pub sense_step-Keeps :
      (m : Machine W) → i < length m.dma.ch → KeepsCommand i m.dma (sense_step h i m).machine.dma
  unfolding sense_step
  sense_step-Keeps m below =
      let c = channel m.dma i in
      let Kept = λ (t : Sensed W). KeepsCommand i m.dma t.machine.dma in
      if_split Kept (cmd_command c.loaded_cmd == 3 && not m.dma.is_apbx) _ _
        (λ _.
          if_split Kept (h.sense_capable i) _ _
            (λ _.
              put_channel-Keeps i
                (record c {
                  nxtcmdar = if (h.sense m.world i).result then c.loaded_bar else c.loaded_nxtcmdar;
                })
                m.dma below refl refl)
            (λ _. (refl, refl, refl)))
        (λ _. (refl, refl, refl))

  pub transfer-Keeps :
      (command : ℕ) (m : Machine W)
      → i < length m.dma.ch
      → KeepsCommand i m.dma (transfer h i command m).dma
  unfolding transfer bus_error update_irq
  transfer-Keeps command m below =
      let c = channel m.dma i in
      let count = xfer_length c.loaded_cmd in
      let moved : Moved W =
        if command == 1
        then move_to_memory h i m.world c.loaded_bar count
        else move_from_memory h i m.world c.loaded_bar count in
      let shown = record c { debug2 = remaining_debug2 count moved.consumed moved.transfer_ok } in
      let stored = put_channel-Keeps i shown m.dma below refl refl in
      if_split (λ (t : Machine W). KeepsCommand i m.dma t.dma) (is_transfer command) _ _
        (λ _. if_split (KeepsCommand i m.dma) moved.transfer_ok _ _ (λ _. stored) (λ _. stored))
        (λ _. (refl, refl, refl))

-- Retiring a command that takes the semaphore decrements it.
pub retire-length : (i cmd phore : ℕ) (s : Dma) → length (retire i cmd phore s).ch ≡ length s.ch
unfolding retire take_semaphore completion_irq update_irq
retire-length i cmd phore s =
    let Size = λ (t : Dma). length t.ch ≡ length s.ch in
    let cleared = length-set s.ch i (record (channel s i) { debug2 = 0 }) in
    let taken =
      if_split Size (cmd_semaphore cmd) _ _ (λ _. length-set _ i _ ∙ cleared) (λ _. cleared) in
    if_split Size (cmd_irqoncmplt cmd) _ _ (λ _. taken) (λ _. taken)

pub phore_of-retire :
    (i cmd phore : ℕ) (s : Dma)
    → i < length s.ch
    → phore ≤ 255
    → cmd_semaphore cmd ≡ true
    → phore_of (channel (retire i cmd phore s) i) ≡ phore - 1
unfolding retire take_semaphore completion_irq update_irq
phore_of-retire i cmd phore s h le takes =
    let Taken = λ (t : Dma). phore_of (channel t i) ≡ phore - 1 in
    let cleared = change_channel i (λ c. record c { debug2 = 0 }) s in
    let size = length-set s.ch i (record (channel s i) { debug2 = 0 }) in
    let c = record (channel cleared i) { sema = u32 ((phore - 1) <<< 16) } in
    let now : channel (put_channel cleared i c) i ≡ c =
      get_or-set_self cleared.ch i c channel_zero (omega arith) in
    let lowered =
      phore_of-sema (channel (put_channel cleared i c) i) (phore - 1) (omega arith)
        (ap (λ (d : Channel). d.sema) now) in
    let taken =
      if_split Taken (cmd_semaphore cmd) _ _ (λ _. lowered)
        (λ off. absurd (Bool-clash takes off)) in
    if_split Taken (cmd_irqoncmplt cmd) _ _ (λ _. taken) (λ _. taken)

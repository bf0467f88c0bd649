-- ===== src/Dma/Run.antt =====
-- Running a channel's command chain (hw/dma/stmp3770_dma.c). The C functions call one another
-- without bound; here they take fuel, and `none` says that it ran out.
use emu_gii.Prelude.{
  ℕ, zero, suc, ◌-◌, ◌^◌, bit_or, Bool, true, false, not, ◌&&◌, ◌||◌, Option, none, some, ltb, ◌==◌,
  if◌then◌else◌, for_below,
}
use emu_gii.Reg.{u32, ◌<<<◌}
use emu_gii.Dma.Host.{Host}
use emu_gii.Dma.State.{
  Channel, Dma, num_channels, channel, put_channel, update_irq, phore_of, channel_active,
  channel_active_for_ctrl,
}
use emu_gii.Dma.Command.{
  Machine, load_command, cmd_chain, cmd_irqoncmplt, cmd_semaphore, cmd_wait4endcmd,
}
use emu_gii.Dma.Transfer.{sense_step, transfer}

abbrev pub change_channel : ℕ → (Channel → Channel) → Dma → Dma
change_channel i f s = put_channel s i (f (channel s i))

-- `if (decrement_sema) { if (phore > 0) phore--; ch->sema = phore << 16; }`
unfoldable pub take_semaphore : ℕ → ℕ → Dma → Dma
take_semaphore i phore s = change_channel i (λ c. record c { sema = u32 ((phore - 1) <<< 16) }) s

-- The completion interrupt of `IRQONCMPLT`.
unfoldable pub completion_irq : ℕ → Dma → Dma
completion_irq i s = update_irq i (record s { ctrl1 = bit_or s.ctrl1 (2 ^ i) })

-- A command is retired: its byte counts are cleared, the semaphore taken and the interrupt set.
unfoldable pub retire : ℕ → ℕ → ℕ → Dma → Dma
unfolding take_semaphore completion_irq
retire i cmd phore s =
    let cleared = change_channel i (λ c. record c { debug2 = 0 }) s in
    let taken = if cmd_semaphore cmd then take_semaphore i phore cleared else cleared in
    if cmd_irqoncmplt cmd then completion_irq i taken else taken

-- "Advance command chain", for a command that was not a sense branch.
abbrev pub advanced : ℕ → Channel → Channel
advanced cmd c = record c { nxtcmdar = if cmd_chain cmd then c.loaded_nxtcmdar else 0 }

unfoldable pub advance : ℕ → ℕ → Bool → Dma → Dma
advance i cmd sense_branch s = if sense_branch then s else change_channel i (advanced cmd) s

-- What a completion does to the flags of an inactive channel, and of an active one, and what a
-- command that starts to wait does.
abbrev pub latched : Channel → Channel
latched c = record c { wait4endcmd_completion = true }

abbrev pub ended : Channel → Channel
ended c = record c { wait4endcmd_pending = false; wait4endcmd_completion = false }

abbrev pub waiting : Channel → Channel
waiting c = record c { wait4endcmd_pending = true; wait4endcmd_completion = false }

abbrev pub and_then {ℓ} : {A : Type ℓ} → Option A → (A → Option A) → Option A
and_then none k = none
and_then (some m) k = k m

module _ {W : Type 0} (h : Host W) where
  -- Load the next command, and go on with it by `next`.
  unfoldable pub load_and : (Machine W → Option (Machine W)) → ℕ → Machine W → Option (Machine W)
  load_and next i m =
      let loaded = load_command h i m in
      elim loaded.success [ true ↦ next loaded.machine | false ↦ some loaded.machine ]

  -- `stmp3770_dma_complete_channel_command`
  unfoldable pub complete_with :
      (Machine W → Option (Machine W)) → ℕ → Machine W → Option (Machine W)
  complete_with next i m =
      let c = channel m.dma i in
      let stopped = change_channel i ended m.dma in
      let retired = record m { dma = retire i c.loaded_cmd (phore_of c) stopped } in
      if not (ltb i num_channels)
      then some m
      else if not (channel_active m.dma i)
      then some
          (if c.wait4endcmd_pending then record m { dma = change_channel i latched m.dma } else m)
      else if not c.wait4endcmd_pending
      then some m
      else if cmd_chain c.loaded_cmd
      then load_and next i retired
      else some retired

  -- The command waits for the peripheral, which may complete it at once.
  unfoldable pub await_completion :
      (Machine W → Option (Machine W)) → ℕ → Machine W → Option (Machine W)
  await_completion next i m =
      let answer = h.completion m.world i in
      let m' : Machine W = record { dma = change_channel i waiting m.dma; world = answer.world } in
      if answer.result then complete_with next i m' else some m'

  -- One round of `stmp3770_dma_run_channel`; `next` runs the command that was loaded last.
  unfoldable pub run_body : (Machine W → Option (Machine W)) → ℕ → Machine W → Option (Machine W)
  unfolding advance
  run_body next i m =
      let c = channel m.dma i in
      let cmd = c.loaded_cmd in
      let sensed = sense_step h i m in
      let moved = transfer h i sensed.command sensed.machine in
      let m' = record moved { dma = advance i cmd sensed.sense_branch moved.dma } in
      let retired = record m' { dma = retire i cmd (phore_of c) m'.dma } in
      if cmd_semaphore cmd && phore_of c == 0
      then some m
      else if cmd_wait4endcmd cmd && h.has_completion i
      then await_completion next i m'
      else if cmd_chain cmd || sensed.sense_branch
      then load_and next i retired
      else some retired

  unfoldable pub run_channel : ℕ → ℕ → Machine W → Option (Machine W)
  unfolding run_body
  run_channel zero i m = none
  run_channel (suc fuel) i m = run_body (run_channel fuel i) i m

  unfoldable pub complete_channel_command : ℕ → ℕ → Machine W → Option (Machine W)
  complete_channel_command fuel i m = complete_with (run_channel fuel i) i m

  unfoldable pub kick_channel : ℕ → ℕ → Machine W → Option (Machine W)
  kick_channel fuel i m =
      let c = channel m.dma i in
      if not (channel_active m.dma i)
      then some m
      else if c.wait4endcmd_pending
      then (if c.wait4endcmd_completion then complete_channel_command fuel i m else some m)
      else if phore_of c == 0 || c.nxtcmdar == 0
      then some m
      else load_and (run_channel fuel i) i m

  -- Every channel that was stopped and no longer is, in order.
  unfoldable pub resume_channels : ℕ → ℕ → ℕ → Machine W → Option (Machine W)
  resume_channels fuel old_ctrl0 new_ctrl0 m =
      for_below num_channels
        (λ i so_far. and_then so_far λ t.
          if not (channel_active_for_ctrl t.dma.is_apbx old_ctrl0 i)
            && channel_active_for_ctrl t.dma.is_apbx new_ctrl0 i
          then kick_channel fuel i t
          else some t)
        (some m)

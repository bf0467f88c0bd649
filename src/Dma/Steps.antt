-- ===== src/Dma/Steps.antt =====
-- Running a chain keeps the invariant of the DMA engines (hw/dma/stmp3770_dma.c).
use emu_gii.Prelude.{
  ℕ, zero, suc, ◌+◌, ◌<◌, refl, not, ◌&&◌, ◌||◌, Option, none, some, ltb, ◌==◌, if_split,
  Option_split, Bool_split, if◌then◌else◌,
}
use emu_gii.Dma.Host.{Host}
use emu_gii.Dma.State.{Channel, num_channels, channel, phore_of, channel_active}
use emu_gii.Dma.Command.{
  Machine, Loaded, load_command, load_pio, finish_load, fetched, reflected, cmd_chain,
  cmd_semaphore, cmd_wait4endcmd, cmd_command, is_transfer, overwrite,
}
use emu_gii.Dma.Transfer.{
  Sensed, sense_step, transfer, Moved, move_to_memory, move_from_memory, xfer_length,
  remaining_debug2,
}
use emu_gii.Dma.Run.{
  change_channel, retire, load_and, complete_with, await_completion, run_body, run_channel,
  complete_channel_command, kick_channel, latched, ended, waiting,
}
use emu_gii.Dma.Invariant.{
  IsValid, ChannelFits, change_channel-IsValid, put_channel-IsValid, kept-ChannelFits,
  flags-ChannelFits, retire-IsValid, advance-IsValid, bus_error-IsValid, phore_of-le,
}

-- Whatever a computation returns is valid; running out of fuel is told apart elsewhere.
abbrev pub Keeps : {W : Type 0} → Option (Machine W) → Type 0
Keeps none = Unit
Keeps (some m) = IsValid m.dma

module _ {W : Type 0} (h : Host W) where
  finish_load-IsValid :
      (m : Machine W) (i : ℕ) (c : Channel)
      → ChannelFits c
      → IsValid m.dma
      → IsValid (finish_load h m i c).machine.dma
  unfolding finish_load reflected
  finish_load-IsValid m i c f v =
      let shown = reflected c (channel m.dma i).nxtcmdar in
      let stored =
        put_channel-IsValid i shown m.dma (flags-ChannelFits c shown refl (λ on. cc) f) v in
      if_split (λ (t : Machine W). IsValid t.dma) (ltb 0 c.num_pio_words && h.has_handler i) _ _
        (λ _. stored) (λ _. stored)

  load_pio-IsValid :
      (m : Machine W) (i : ℕ) (c : Channel)
      → ChannelFits c
      → IsValid m.dma
      → IsValid (load_pio h m i c).machine.dma
  unfolding load_pio
  load_pio-IsValid m i c f v =
      let Stays = λ (l : Loaded W). IsValid l.machine.dma in
      if_split Stays (ltb 0 c.num_pio_words) _ _
        (λ _.
          Option_split Stays
            (h.read_words m.world ((channel m.dma i).nxtcmdar + 12) c.num_pio_words) _ _
            (put_channel-IsValid i c m.dma f v)
            (λ words e.
              let filled = record c { pio_words = overwrite words c.pio_words } in
              finish_load-IsValid m i filled (kept-ChannelFits c filled refl refl refl f) v))
        (λ _. finish_load-IsValid m i c f v)

  load_command-IsValid :
      (i : ℕ) (m : Machine W) → IsValid m.dma → IsValid (load_command h i m).machine.dma
  unfolding load_command fetched
  load_command-IsValid i m v =
      let c = channel m.dma i in
      let Stays = λ (l : Loaded W). IsValid l.machine.dma in
      if_split Stays (c.nxtcmdar == 0) _ _ (λ _. v)
        λ _. Option_split Stays (h.read_words m.world c.nxtcmdar 4) _ _ v λ words e.
          load_pio-IsValid m i (fetched c words)
            (kept-ChannelFits c (fetched c words) refl refl refl (v.fits i)) v

  sense_step-IsValid :
      (i : ℕ) (m : Machine W) → IsValid m.dma → IsValid (sense_step h i m).machine.dma
  unfolding sense_step
  sense_step-IsValid i m v =
      let c = channel m.dma i in
      let Stays = λ (t : Sensed W). IsValid t.machine.dma in
      if_split Stays (cmd_command c.loaded_cmd == 3 && not m.dma.is_apbx) _ _
        (λ _.
          if_split Stays (h.sense_capable i) _ _
            (λ _. put_channel-IsValid i _ m.dma (kept-ChannelFits c _ refl refl refl (v.fits i)) v)
            (λ _. v))
        (λ _. v)

  transfer-IsValid :
      (i command : ℕ) (m : Machine W) → i < 8 → IsValid m.dma → IsValid (transfer h i command m).dma
  unfolding transfer
  transfer-IsValid i command m below v =
      let c = channel m.dma i in
      if_split (λ (t : Machine W). IsValid t.dma) (is_transfer command) _ _
        (λ _.
          let moved : Moved W =
            if command == 1
            then move_to_memory h i m.world c.loaded_bar (xfer_length c.loaded_cmd)
            else move_from_memory h i m.world c.loaded_bar (xfer_length c.loaded_cmd) in
          let shown = record c {
            debug2 = remaining_debug2 (xfer_length c.loaded_cmd) moved.consumed moved.transfer_ok;
          } in
          let stored =
            put_channel-IsValid i shown m.dma (kept-ChannelFits c shown refl refl refl (v.fits i))
              v in
          if_split IsValid moved.transfer_ok _ _ (λ _. stored)
            (λ _. bus_error-IsValid i _ below stored))
        (λ _. v)

-- Running a channel: `next` is any continuation that keeps the invariant.
module _ {W : Type 0} (h : Host W) (i : ℕ) (below : i < 8) where
  abbrev Continues : (Machine W → Option (Machine W)) → Type 0
  Continues next = (m : Machine W) → IsValid m.dma → Keeps (next m)

  load_and-Keeps :
      (next : Machine W → Option (Machine W)) (m : Machine W)
      → Continues next
      → IsValid m.dma
      → Keeps (load_and h next i m)
  unfolding load_and
  load_and-Keeps next m keeps v =
      let after = load_command-IsValid h i m v in
      Bool_split Keeps (load_command h i m).success _ _
        (λ _. keeps (load_command h i m).machine after) (λ _. after)

  complete_with-Keeps :
      (next : Machine W → Option (Machine W)) (m : Machine W)
      → Continues next
      → IsValid m.dma
      → Keeps (complete_with h next i m)
  unfolding complete_with
  complete_with-Keeps next m keeps v =
      let c = channel m.dma i in
      if_split Keeps (not (ltb i num_channels)) _ _ (λ _. v)
        λ _.
          if_split Keeps (not (channel_active m.dma i)) _ _
            (λ _.
              if_split (λ (t : Machine W). IsValid t.dma) c.wait4endcmd_pending _ _
                (λ waits.
                  put_channel-IsValid i (latched c) m.dma
                    (flags-ChannelFits c (latched c) refl (λ _. waits) (v.fits i)) v)
                (λ _. v))
            λ _.
              if_split Keeps (not c.wait4endcmd_pending) _ _ (λ _. v)
                λ _.
                  if_split Keeps (cmd_chain c.loaded_cmd) _ _
                    (λ _. load_and-Keeps next _ keeps retired) (λ _. retired)
    where
      stopped : IsValid (change_channel i ended m.dma)
      stopped =
          change_channel-IsValid i ended m.dma
            (λ c f. flags-ChannelFits c (ended c) refl (λ on. cc) f) v

      retired : IsValid (
          retire i
            (channel m.dma i).loaded_cmd
            (phore_of (channel m.dma i))
            (change_channel i ended m.dma))
      retired = retire-IsValid i _ _ _ below (phore_of-le (channel m.dma i)) stopped

  await_completion-Keeps :
      (next : Machine W → Option (Machine W)) (m : Machine W)
      → Continues next
      → IsValid m.dma
      → Keeps (await_completion h next i m)
  unfolding await_completion
  await_completion-Keeps next m keeps v =
      let waits =
        change_channel-IsValid i waiting m.dma
          (λ c f. flags-ChannelFits c (waiting c) refl (λ on. refl) f) v in
      if_split Keeps (h.completion m.world i).result _ _
        (λ _. complete_with-Keeps next _ keeps waits) (λ _. waits)

  run_body-Keeps :
      (next : Machine W → Option (Machine W)) (m : Machine W)
      → Continues next
      → IsValid m.dma
      → Keeps (run_body h next i m)
  unfolding run_body
  run_body-Keeps next m keeps v =
      let c = channel m.dma i in
      let sensed = sense_step h i m in
      let moved =
        transfer-IsValid h i sensed.command sensed.machine below (sense_step-IsValid h i m v) in
      let advanced = advance-IsValid i c.loaded_cmd sensed.sense_branch _ moved in
      let retired = retire-IsValid i c.loaded_cmd (phore_of c) _ below (phore_of-le c) advanced in
      if_split Keeps (cmd_semaphore c.loaded_cmd && phore_of c == 0) _ _ (λ _. v)
        λ _.
          if_split Keeps (cmd_wait4endcmd c.loaded_cmd && h.has_completion i) _ _
            (λ _. await_completion-Keeps next _ keeps advanced)
            λ _.
              if_split Keeps (cmd_chain c.loaded_cmd || sensed.sense_branch) _ _
                (λ _. load_and-Keeps next _ keeps retired) (λ _. retired)

  pub run_channel-Keeps : (fuel : ℕ) → Continues (run_channel h fuel i)
  unfolding run_channel
  run_channel-Keeps zero = λ m v. tt
  run_channel-Keeps (suc fuel) =
      λ m v. run_body-Keeps (run_channel h fuel i) m (run_channel-Keeps fuel) v

  pub complete_channel_command-Keeps : (fuel : ℕ) → Continues (complete_channel_command h fuel i)
  unfolding complete_channel_command
  complete_channel_command-Keeps fuel =
      λ m v. complete_with-Keeps (run_channel h fuel i) m (run_channel-Keeps fuel) v

  pub kick_channel-Keeps : (fuel : ℕ) → Continues (kick_channel h fuel i)
  unfolding kick_channel
  kick_channel-Keeps fuel = λ m v.
      let c = channel m.dma i in
      if_split Keeps (not (channel_active m.dma i)) _ _ (λ _. v)
        λ _.
          if_split Keeps c.wait4endcmd_pending _ _
            (λ _.
              if_split Keeps c.wait4endcmd_completion _ _
                (λ _. complete_channel_command-Keeps fuel m v) (λ _. v))
            λ _.
              if_split Keeps (phore_of c == 0 || c.nxtcmdar == 0) _ _ (λ _. v)
                (λ _. load_and-Keeps (run_channel h fuel i) m (run_channel-Keeps fuel) v)

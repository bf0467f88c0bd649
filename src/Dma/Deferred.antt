-- ===== src/Dma/Deferred.antt =====
-- A completion that arrives while the channel is stopped (hw/dma/stmp3770_dma.c).
use emu_gii.Prelude.{
  ℕ, ◌<◌, ◌≡◌, refl, sym, ◌∙◌, ap, true, false, not, Option, some, List, length, set, set-set,
  get_or-set_self, ltb, arith, if_split, Bool-clash, if◌then◌else◌,
}
use emu_gii.Dma.Host.{Host}
use emu_gii.Dma.State.{Channel, Dma, num_channels, channel, channel_zero, channel_active, phore_of}
use emu_gii.Dma.Command.{Machine, cmd_chain}
use emu_gii.Dma.Run.{
  change_channel, retire, load_and, complete_with, run_channel, complete_channel_command,
  kick_channel, latched, ended, and_then,
}

abbrev pub with_ctrl0 : {W : Type 0} → ℕ → Machine W → Machine W
with_ctrl0 ctrl0 m = let s = m.dma in record m { dma = record s { ctrl0 = ctrl0 } }

module _ {W : Type 0} (h : Host W) (fuel i : ℕ) (below : i < 8) where
  exists_channel : not (ltb i num_channels) ≡ false
  exists_channel = ground arith

  abbrev latch : Machine W → Machine W
  latch m = record m { dma = change_channel i latched m.dma }

  -- What an active channel does with a completion that it waits for.
  abbrev end_with : Machine W → Channel → List Channel → Option (Machine W)
  end_with m c ch =
      let stopped : Dma = let s = m.dma in record s { ch = ch } in
      let retired : Machine W = record m { dma = retire i c.loaded_cmd (phore_of c) stopped } in
      if cmd_chain c.loaded_cmd then load_and h (run_channel h fuel i) i retired else some retired

  abbrev end_command : Machine W → Option (Machine W)
  end_command m = let c = channel m.dma i in end_with m c (set m.dma.ch i (ended c))

  complete-stopped :
      (m : Machine W)
      → channel_active m.dma i ≡ false
      → (channel m.dma i).wait4endcmd_pending ≡ true
      → complete_channel_command h fuel i m ≡ some (latch m)
  unfolding complete_channel_command complete_with
  complete-stopped m off waits =
      let Latches = λ (o : Option (Machine W)). o ≡ some (latch m) in
      if_split Latches (not (ltb i num_channels)) _ _ (λ no. Bool-clash no exists_channel)
        λ _.
          if_split Latches (not (channel_active m.dma i)) _ _
            (λ _.
              if_split (λ (t : Machine W). some t ≡ some (latch m))
                (channel m.dma i).wait4endcmd_pending _ _ (λ _. refl) (λ no. Bool-clash waits no))
            (λ on. Bool-clash (ap not off) on)

  complete-active :
      (m : Machine W)
      → channel_active m.dma i ≡ true
      → (channel m.dma i).wait4endcmd_pending ≡ true
      → complete_channel_command h fuel i m ≡ end_command m
  unfolding complete_channel_command complete_with
  complete-active m on waits =
      let Ends = λ (o : Option (Machine W)). o ≡ end_command m in
      if_split Ends (not (ltb i num_channels)) _ _ (λ no. Bool-clash no exists_channel)
        λ _.
          if_split Ends (not (channel_active m.dma i)) _ _ (λ off. Bool-clash off (ap not on))
            λ _.
              if_split Ends (not (channel m.dma i).wait4endcmd_pending) _ _
                (λ no. Bool-clash no (ap not waits)) (λ _. refl)

  kick-latched :
      (m : Machine W)
      → channel_active m.dma i ≡ true
      → (channel m.dma i).wait4endcmd_pending ≡ true
      → (channel m.dma i).wait4endcmd_completion ≡ true
      → kick_channel h fuel i m ≡ complete_channel_command h fuel i m
  unfolding kick_channel
  kick-latched m on waits latched_it =
      let Completes = λ (o : Option (Machine W)). o ≡ complete_channel_command h fuel i m in
      if_split Completes (not (channel_active m.dma i)) _ _ (λ off. Bool-clash off (ap not on))
        λ _.
          if_split Completes (channel m.dma i).wait4endcmd_pending _ _
            (λ _.
              if_split Completes (channel m.dma i).wait4endcmd_completion _ _ (λ _. refl)
                (λ no. Bool-clash latched_it no))
            (λ no. Bool-clash waits no)

  -- Ending the command forgets the latch.
  end_command-latch : (m : Machine W) → length m.dma.ch ≡ 8 → end_command (latch m) ≡ end_command m
  unfolding phore_of
  end_command-latch m size =
      let c = channel m.dma i in
      let ch = m.dma.ch in
      ap (λ (d : Channel). end_with m d (set (set ch i (latched c)) i (ended d)))
        (get_or-set_self ch i (latched c) channel_zero (omega arith))
      ∙ ap (end_with m c) (set-set ch i (latched c) (ended c))

  -- A completion that arrives for a waiting command while the channel is stopped, by any value of
  -- CTRL0, is not lost: when CTRL0 lets the channel run again the kick does what the completion
  -- would have done, had it found the channel active.
  pub deferred_completion :
      (stopped : ℕ) (m : Machine W)
      → length m.dma.ch ≡ 8
      → (channel m.dma i).wait4endcmd_pending ≡ true
      → channel_active m.dma i ≡ true
      → channel_active (with_ctrl0 stopped m).dma i ≡ false
      → and_then
          (complete_channel_command h fuel i (with_ctrl0 stopped m))
          (λ t. kick_channel h fuel i (with_ctrl0 m.dma.ctrl0 t))
        ≡ complete_channel_command h fuel i m
  unfolding channel_active
  deferred_completion stopped m size waits on off =
      let now = get_or-set_self m.dma.ch i (latched (channel m.dma i)) channel_zero (omega arith) in
      let waits' = ap (λ (c : Channel). c.wait4endcmd_pending) now ∙ waits in
      let latched_it = ap (λ (c : Channel). c.wait4endcmd_completion) now in
      ap
        (λ (o : Option (Machine W)).
          and_then o (λ t. kick_channel h fuel i (with_ctrl0 m.dma.ctrl0 t)))
        (complete-stopped (with_ctrl0 stopped m) off waits)
      ∙ kick-latched (latch m) on waits' latched_it
      ∙ complete-active (latch m) on waits'
      ∙ end_command-latch m size
      ∙ sym (complete-active m on waits)

-- ===== src/Dma/Fuel.antt =====
-- Chains whose descriptors take the semaphore end, and 256 rounds are enough
-- (hw/dma/stmp3770_dma.c).
use emu_gii.Prelude.{
  ℕ, zero, suc, ◌<◌, ◌≡◌, refl, sym, ◌∙◌, ap, subst, bit_and, true, false, not, ◌&&◌, ◌||◌, Option,
  none, some, length, length-set, ltb, ◌==◌, arith, if_split, Bool_split,
}
use emu_gii.Reg.{◌>>>◌}
use emu_gii.Dma.Host.{Host}
use emu_gii.Dma.State.{Channel, Dma, num_channels, channel, channel_active, phore_of}
use emu_gii.Dma.Command.{Machine, load_command, cmd_semaphore, cmd_wait4endcmd, cmd_chain}
use emu_gii.Dma.Transfer.{sense_step, transfer}
use emu_gii.Dma.Run.{
  change_channel, retire, advance, load_and, complete_with, await_completion, run_body, run_channel,
  complete_channel_command, kick_channel, latched, ended, waiting,
}
use emu_gii.Dma.Invariant.{phore_of-le}
use emu_gii.Dma.Kept.{
  KeepsCommand, KeepsCommand-trans, put_channel-Keeps, advance-Keeps, sense_step-Keeps,
  transfer-Keeps, retire-length, phore_of-retire,
}
use emu_gii.Dma.Loads.{TakesSemaphores, load_command-LoadsFrom}

abbrev pub Returns : {W : Type 0} → Option (Machine W) → Type 0
Returns none = ⊥
Returns (some m) = (length m.dma.ch ≡ 8)

module _ {W : Type 0} (h : Host W) (takes : TakesSemaphores h) (i : ℕ) (below : i < 8) where
  -- `next` ends on every machine whose loaded command takes the semaphore and whose count is
  -- below `n`.
  abbrev Finishes : ℕ → (Machine W → Option (Machine W)) → Type 0
  Finishes n next =
      (m : Machine W)
      → length m.dma.ch ≡ 8
      → cmd_semaphore (channel m.dma i).loaded_cmd ≡ true
      → phore_of (channel m.dma i) < n
      → Returns (next m)

  load_and-Returns :
      (n : ℕ) (next : Machine W → Option (Machine W)) (m : Machine W)
      → Finishes n next
      → length m.dma.ch ≡ 8
      → phore_of (channel m.dma i) < n
      → Returns (load_and h next i m)
  unfolding load_and phore_of
  load_and-Returns n next m ends size low =
      let (kept, same, loaded) = load_command-LoadsFrom h takes i below m size in
      Bool_split Returns (load_command h i m).success _ _
        (λ yes.
          ends (load_command h i m).machine (kept ∙ size) (loaded yes)
            (subst (λ (x : ℕ). bit_and (x >>> 16) 0xff < n) (sym same) low))
        (λ _. kept ∙ size)

  complete_with-Returns :
      (n : ℕ) (next : Machine W → Option (Machine W)) (m : Machine W)
      → Finishes n next
      → length m.dma.ch ≡ 8
      → (let c = channel m.dma i in
          phore_of (channel (retire i c.loaded_cmd (phore_of c) (change_channel i ended m.dma)) i)
          < n)
      → Returns (complete_with h next i m)
  unfolding complete_with
  complete_with-Returns n next m ends size low =
      let c = channel m.dma i in
      let stopped = length-set m.dma.ch i (ended c) ∙ size in
      let retired =
        retire-length i c.loaded_cmd (phore_of c) (change_channel i ended m.dma) ∙ stopped in
      if_split Returns (not (ltb i num_channels)) _ _ (λ _. size)
        λ _.
          if_split Returns (not (channel_active m.dma i)) _ _
            (λ _.
              if_split (λ (t : Machine W). length t.dma.ch ≡ 8) c.wait4endcmd_pending _ _
                (λ _. length-set m.dma.ch i (latched c) ∙ size) (λ _. size))
            λ _.
              if_split Returns (not c.wait4endcmd_pending) _ _ (λ _. size)
                λ _.
                  if_split Returns (cmd_chain c.loaded_cmd) _ _
                    (λ _. load_and-Returns n next _ ends retired low) (λ _. retired)

  phore-Keeps : (s t : Dma) → KeepsCommand i s t → phore_of (channel t i) ≡ phore_of (channel s i)
  unfolding phore_of
  phore-Keeps s t (kept, same, cmd) = ap (λ (x : ℕ). bit_and (x >>> 16) 0xff) same

  change_flags :
      (f : Channel → Channel) (s : Dma)
      → length s.ch ≡ 8
      → ((c : Channel) → (f c).sema ≡ c.sema)
      → ((c : Channel) → (f c).loaded_cmd ≡ c.loaded_cmd)
      → KeepsCommand i s (change_channel i f s)
  change_flags f s size sema cmd =
      let c = channel s i in put_channel-Keeps i (f c) s (omega arith) (sema c) (cmd c)

  -- Sensing, the transfer and the advance of one round.
  round_Keeps :
      (m : Machine W)
      → length m.dma.ch ≡ 8
      → (let sensed = sense_step h i m in
          KeepsCommand i m.dma (
            advance i
              (channel m.dma i).loaded_cmd
              sensed.sense_branch
              (transfer h i sensed.command sensed.machine).dma))
  round_Keeps m size =
      let sensed = sense_step h i m in
      let moved = transfer h i sensed.command sensed.machine in
      let first = sense_step-Keeps h i m (omega arith) in
      let second = transfer-Keeps h i sensed.command sensed.machine (omega (arith, first.0)) in
      let third =
        advance-Keeps i (channel m.dma i).loaded_cmd sensed.sense_branch moved.dma
          (omega (arith, first.0, second.0)) in
      KeepsCommand-trans i m.dma moved.dma
        (advance i (channel m.dma i).loaded_cmd sensed.sense_branch moved.dma)
        (KeepsCommand-trans i m.dma sensed.machine.dma moved.dma first second) third

  -- Retiring the command of a channel that kept its semaphore and command since `s`.
  lowered :
      (n : ℕ) (s t : Dma)
      → length s.ch ≡ 8
      → KeepsCommand i s t
      → cmd_semaphore (channel s i).loaded_cmd ≡ true
      → (phore_of (channel s i) == 0) ≡ false
      → phore_of (channel s i) < suc n
      → phore_of (channel (retire i (channel s i).loaded_cmd (phore_of (channel s i)) t) i) < n
  lowered n s t size (kept, same, cmd) has_it some_left low =
      let c = channel s i in
      let after =
        phore_of-retire i c.loaded_cmd (phore_of c) t (omega arith) (phore_of-le c) has_it in
      ground arith

  await_completion-Returns :
      (n : ℕ) (next : Machine W → Option (Machine W)) (m : Machine W)
      → Finishes n next
      → length m.dma.ch ≡ 8
      → cmd_semaphore (channel m.dma i).loaded_cmd ≡ true
      → (phore_of (channel m.dma i) == 0) ≡ false
      → phore_of (channel m.dma i) < suc n
      → Returns (await_completion h next i m)
  unfolding await_completion
  await_completion-Returns n next m ends size has_it some_left low =
      if_split Returns (h.completion m.world i).result _ _
        (λ _. complete_with-Returns n next _ ends waits (
          lowered n waiting_dma _ waits
            (change_flags ended waiting_dma waits (λ c. refl) (λ c. refl))
            (ap cmd_semaphore (kept.2) ∙ has_it) (ap (λ (p : ℕ). p == 0) same ∙ some_left)
            (omega (arith, same))))
        (λ _. waits)
    where
      waiting_dma : Dma
      waiting_dma = change_channel i waiting m.dma

      waits : length waiting_dma.ch ≡ 8
      waits = length-set m.dma.ch i (waiting (channel m.dma i)) ∙ size

      kept : KeepsCommand i m.dma waiting_dma
      kept = change_flags waiting m.dma size (λ c. refl) (λ c. refl)

      same : phore_of (channel waiting_dma i) ≡ phore_of (channel m.dma i)
      same = phore-Keeps m.dma waiting_dma kept

  run_body-Returns :
      (n : ℕ) (next : Machine W → Option (Machine W))
      → Finishes n next
      → Finishes (suc n) (run_body h next i)
  unfolding run_body
  run_body-Returns n next ends = λ m size has_it low.
      let c = channel m.dma i in
      let sensed = sense_step h i m in
      let moved = transfer h i sensed.command sensed.machine in
      let dma = advance i c.loaded_cmd sensed.sense_branch moved.dma in
      let kept = round_Keeps m size in
      let after = kept.0 ∙ size in
      let same = phore-Keeps m.dma dma kept in
      let retired = retire-length i c.loaded_cmd (phore_of c) dma ∙ after in
      if_split Returns (cmd_semaphore c.loaded_cmd && phore_of c == 0) _ _ (λ _. size)
        λ go.
          let some_left : (phore_of c == 0) ≡ false = ground arith in
          if_split Returns (cmd_wait4endcmd c.loaded_cmd && h.has_completion i) _ _
            (λ _.
              await_completion-Returns n next _ ends after (ap cmd_semaphore kept.2 ∙ has_it)
                (ap (λ (p : ℕ). p == 0) same ∙ some_left) (omega (arith, same)))
            λ _.
              if_split Returns (cmd_chain c.loaded_cmd || sensed.sense_branch) _ _
                (λ _.
                  load_and-Returns n next _ ends retired
                    (lowered n m.dma dma size kept has_it some_left low))
                (λ _. retired)

  run_channel-Finishes : (n : ℕ) → Finishes n (run_channel h n i)
  unfolding run_channel
  run_channel-Finishes zero = λ m size has_it low. absurd (omega arith)
  run_channel-Finishes (suc n) = run_body-Returns n (run_channel h n i) (run_channel-Finishes n)

  pub complete_channel_command-Returns :
      (m : Machine W) → length m.dma.ch ≡ 8 → Returns (complete_channel_command h 256 i m)
  unfolding complete_channel_command
  complete_channel_command-Returns m size =
      complete_with-Returns 256 (run_channel h 256 i) m (run_channel-Finishes 256) size (
        omega (
          arith,
          phore_of-le (
              channel
                (retire i (channel m.dma i).loaded_cmd (phore_of (channel m.dma i))
                  (change_channel i ended m.dma))
                i),
        ))

  pub kick_channel-Returns :
      (m : Machine W) → length m.dma.ch ≡ 8 → Returns (kick_channel h 256 i m)
  unfolding kick_channel
  kick_channel-Returns m size =
      let c = channel m.dma i in
      if_split Returns (not (channel_active m.dma i)) _ _ (λ _. size)
        λ _.
          if_split Returns c.wait4endcmd_pending _ _
            (λ _.
              if_split Returns c.wait4endcmd_completion _ _
                (λ _. complete_channel_command-Returns m size) (λ _. size))
            λ _.
              if_split Returns (phore_of c == 0 || c.nxtcmdar == 0) _ _ (λ _. size)
                (λ _.
                  load_and-Returns 256 (run_channel h 256 i) m (run_channel-Finishes 256) size
                    (omega (arith, phore_of-le c)))

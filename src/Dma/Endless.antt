-- ===== src/Dma/Endless.antt =====
-- A chain that takes no semaphore and leads back to itself is never left
-- (hw/dma/stmp3770_dma.c).
use emu_gii.Prelude.{
  ℕ, zero, suc, ◌<◌, ◌≡◌, ◌≢◌, refl, ◌∙◌, ap, ap₂, Bool, true, false, not, ◌&&◌, ◌||◌, Option, none,
  some, [], ◌∷◌, length, length-set, set, get_or-set_self, ◌==◌, arith, if_split, Bool-clash,
  if◌then◌else◌,
}
use emu_gii.Dma.Host.{Host}
use emu_gii.Dma.State.{Channel, Dma, channel, channel_active, channel_zero, phore_of, update_irq}
use emu_gii.Dma.Command.{
  Machine, Loaded, load_command, load_pio, finish_load, fetched, reflected, cmd_words, cmd_command,
  cmd_semaphore, cmd_wait4endcmd, cmd_chain, cmd_irqoncmplt, is_transfer,
}
use emu_gii.Dma.Transfer.{Sensed, sense_step, transfer}
use emu_gii.Dma.Run.{
  change_channel, take_semaphore, completion_irq, retire, advance, advanced, load_and, run_body,
  run_channel, kick_channel,
}
use emu_gii.Dma.Kept.{retire-length}

-- A command that chains, takes no semaphore, waits for nothing and moves nothing.
pub record IsIdleLink (cmd : ℕ) : Type 0 where
  pub no_transfer : cmd_command cmd ≡ 0
  pub chains : cmd_chain cmd ≡ true
  pub no_semaphore : cmd_semaphore cmd ≡ false
  pub no_wait : cmd_wait4endcmd cmd ≡ false
  pub no_pio : cmd_words cmd ≡ 0

-- Retiring a command leaves the address of the next one.
retire-nxtcmdar :
    (i cmd phore : ℕ) (s : Dma)
    → i < length s.ch
    → (channel (retire i cmd phore s) i).nxtcmdar ≡ (channel s i).nxtcmdar
unfolding retire take_semaphore completion_irq update_irq
retire-nxtcmdar i cmd phore s h =
    let Same = λ (t : Dma). (channel t i).nxtcmdar ≡ (channel s i).nxtcmdar in
    let d = record (channel s i) { debug2 = 0 } in
    let cleared = ap (λ (c : Channel). c.nxtcmdar) (get_or-set_self s.ch i d channel_zero h) in
    let size = length-set s.ch i d in
    let again =
      ap (λ (c : Channel). c.nxtcmdar)
        (get_or-set_self (set s.ch i d) i _ channel_zero (omega arith))
      ∙ cleared in
    let taken = if_split Same (cmd_semaphore cmd) _ _ (λ _. again) (λ _. cleared) in
    if_split Same (cmd_irqoncmplt cmd) _ _ (λ _. taken) (λ _. taken)

module _ {W : Type 0} (h : Host W) (i addr cmd bar last : ℕ) (w : W) where
  -- Memory, in state `w`, has at `addr` a descriptor that points to itself.
  abbrev pub PointsToItself : Type 0
  PointsToItself = h.read_words w addr 4 ≡ some (addr ∷ cmd ∷ bar ∷ last ∷ [])

  -- The channel has loaded the descriptor.
  abbrev Loops : Machine W → Type 0
  Loops m =
      (m.world ≡ w)
      × (length m.dma.ch ≡ 8)
      × ((channel m.dma i).loaded_cmd ≡ cmd)
      × ((channel m.dma i).loaded_nxtcmdar ≡ addr)

  module _ (link : IsIdleLink cmd) (there : PointsToItself) (some_addr : addr ≢ 0)
      (below : i < 8) where
    sense_step-plain :
        (m : Machine W)
        → cmd_command (channel m.dma i).loaded_cmd ≡ 0
        → sense_step h i m ≡ record {
          machine = m;
          command = cmd_command (channel m.dma i).loaded_cmd;
          sense_branch = false;
        }
    unfolding sense_step
    sense_step-plain m e =
        if_split
          (λ (t : Sensed W). t ≡ record {
            machine = m;
            command = cmd_command (channel m.dma i).loaded_cmd;
            sense_branch = false;
          })
          (cmd_command (channel m.dma i).loaded_cmd == 3 && not m.dma.is_apbx) _ _
          (λ yes. Bool-clash yes (ap (λ (x : ℕ). x == 3 && not m.dma.is_apbx) e)) (λ _. refl)

    transfer-plain : (command : ℕ) (m : Machine W) → command ≡ 0 → transfer h i command m ≡ m
    unfolding transfer
    transfer-plain command m e =
        if_split (λ (t : Machine W). t ≡ m) (is_transfer command) _ _
          (λ yes. Bool-clash yes (ap is_transfer e)) (λ _. refl)

    abbrev next_link : Channel → Channel
    next_link c = reflected (fetched c (addr ∷ cmd ∷ bar ∷ last ∷ [])) c.nxtcmdar

    load_command-link :
        (m : Machine W)
        → m.world ≡ w
        → (channel m.dma i).nxtcmdar ≡ addr
        → load_command h i m
          ≡ record { success = true; machine = record m { dma = change_channel i next_link m.dma } }
    unfolding load_command load_pio finish_load fetched
    load_command-link m world at =
        let c = channel m.dma i in
        let read = ap₂ (λ (v : W) (a : ℕ). h.read_words v a 4) world at ∙ there in
        let set_addr : (c.nxtcmdar == 0) ≡ false = ground arith in
        rw (set_addr, read, link.no_pio) refl

    load_and-Diverges :
        (next : Machine W → Option (Machine W)) (m : Machine W)
        → ((t : Machine W) → Loops t → next t ≡ none)
        → m.world ≡ w
        → length m.dma.ch ≡ 8
        → (channel m.dma i).nxtcmdar ≡ addr
        → load_and h next i m ≡ none
    unfolding load_and fetched reflected
    load_and-Diverges next m goes world size at =
        let now =
          get_or-set_self m.dma.ch i (next_link (channel m.dma i)) channel_zero (omega arith) in
        ap
          (λ (l : Loaded W). elim l.success as (λ x. Option (Machine W)) [
            | true ↦ next l.machine
            | false ↦ some l.machine
          ])
          (load_command-link m world at)
        ∙ goes (record m { dma = change_channel i next_link m.dma })
            (
              world,
              length-set m.dma.ch i (next_link (channel m.dma i)) ∙ size,
              ap (λ (c : Channel). c.loaded_cmd) now,
              ap (λ (c : Channel). c.loaded_nxtcmdar) now,
            )

    run_body-Diverges :
        (next : Machine W → Option (Machine W))
        → ((t : Machine W) → Loops t → next t ≡ none)
        → (m : Machine W) → Loops m
        → run_body h next i m ≡ none
    unfolding run_body advance
    run_body-Diverges next goes m (world, size, is_cmd, is_next) =
        if_split Stuck (cmd_semaphore word && phore_of c == 0) _ _
          (λ yes.
            Bool-clash yes
              (ap (λ b. b && phore_of c == 0) (ap cmd_semaphore is_cmd ∙ link.no_semaphore)))
          λ _.
            if_split Stuck (cmd_wait4endcmd word && h.has_completion i) _ _
              (λ yes.
                Bool-clash yes
                  (ap (λ b. b && h.has_completion i) (ap cmd_wait4endcmd is_cmd ∙ link.no_wait)))
              λ _.
                if_split Stuck (cmd_chain word || (sense_step h i m).sense_branch) _ _
                  (λ _. goes_on)
                  (λ no. Bool-clash (ap (λ b. b || (sense_step h i m).sense_branch) chains) no)
      where
        Stuck : Option (Machine W) → Type 0
        Stuck o = o ≡ none

        c : Channel
        c = channel m.dma i

        word : ℕ
        word = c.loaded_cmd

        plain : cmd_command word ≡ 0
        plain = ap cmd_command is_cmd ∙ link.no_transfer

        chains : cmd_chain word ≡ true
        chains = ap cmd_chain is_cmd ∙ link.chains

        resume : Machine W → Bool → Option (Machine W)
        resume t branch =
            load_and h next i
              (record t { dma = retire i word (phore_of c) (advance i word branch t.dma) })

        moved : length (change_channel i (advanced word) m.dma).ch ≡ 8
        moved = length-set m.dma.ch i (advanced word c) ∙ size

        next_is : (channel (change_channel i (advanced word) m.dma) i).nxtcmdar ≡ addr
        next_is =
            ap (λ (d : Channel). d.nxtcmdar)
              (get_or-set_self m.dma.ch i (advanced word c) channel_zero (omega arith))
            ∙ ap (λ b. if b then c.loaded_nxtcmdar else 0) chains
            ∙ is_next

        goes_on :
            resume
              (transfer h i (sense_step h i m).command (sense_step h i m).machine)
              (sense_step h i m).sense_branch
            ≡ none
        goes_on =
            ap (λ (t : Sensed W). resume (transfer h i t.command t.machine) t.sense_branch)
              (sense_step-plain m plain)
            ∙ ap (λ (t : Machine W). resume t false) (transfer-plain (cmd_command word) m plain)
            ∙ load_and-Diverges next _ goes world
                (retire-length i word (phore_of c) (change_channel i (advanced word) m.dma) ∙ moved)
                (retire-nxtcmdar i word (phore_of c) (change_channel i (advanced word) m.dma)
                    (omega (arith, moved))
                  ∙ next_is)

    run_channel-Diverges : (fuel : ℕ) (m : Machine W) → Loops m → run_channel h fuel i m ≡ none
    unfolding run_channel
    run_channel-Diverges zero m l = refl
    run_channel-Diverges (suc fuel) m l =
        run_body-Diverges (run_channel h fuel i) (run_channel-Diverges fuel) m l

    -- With a descriptor in memory that points to itself, chains, moves nothing, waits for
    -- nothing, has no PIO words and takes no semaphore, a kick of an active channel that holds
    -- its address and a count, and waits for no completion, does not return, whatever the fuel.
    pub kick_channel-Diverges :
        (fuel : ℕ) (m : Machine W)
        → m.world ≡ w
        → length m.dma.ch ≡ 8
        → (channel m.dma i).nxtcmdar ≡ addr
        → channel_active m.dma i ≡ true
        → (channel m.dma i).wait4endcmd_pending ≡ false
        → phore_of (channel m.dma i) ≢ 0
        → kick_channel h fuel i m ≡ none
    unfolding kick_channel
    kick_channel-Diverges fuel m world size at on idle counted =
        let c = channel m.dma i in
        let Stuck = λ (o : Option (Machine W)). o ≡ none in
        let ready : (phore_of c == 0 || c.nxtcmdar == 0) ≡ false = ground arith in
        if_split Stuck (not (channel_active m.dma i)) _ _ (λ off. Bool-clash off (ap not on))
          λ _.
            if_split Stuck c.wait4endcmd_pending _ _ (λ yes. Bool-clash yes idle)
              λ _.
                if_split Stuck (phore_of c == 0 || c.nxtcmdar == 0) _ _
                  (λ yes. Bool-clash yes ready)
                  λ _.
                    load_and-Diverges (run_channel h fuel i) m (run_channel-Diverges fuel) world
                      size at

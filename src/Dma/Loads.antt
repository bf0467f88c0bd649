-- ===== src/Dma/Loads.antt =====
-- What loading a descriptor that takes the semaphore leaves (hw/dma/stmp3770_dma.c).
use emu_gii.Prelude.{
  ℕ, ◌+◌, ◌<◌, ◌≡◌, refl, ◌∙◌, ap, true, ◌&&◌, some, List, length, length-set, get_or,
  get_or-set_self, take, ltb, ◌==◌, arith, if_split, Option_split,
}
use emu_gii.Dma.Host.{Host}
use emu_gii.Dma.State.{Channel, Dma, channel, channel_zero, put_channel}
use emu_gii.Dma.Command.{
  Machine, Loaded, load_command, load_pio, finish_load, fetched, reflected, cmd_semaphore,
  overwrite,
}

-- The guest's memory holds only descriptors that take the semaphore, whatever the peripherals did
-- to it.
abbrev pub TakesSemaphores : {W : Type 0} → Host W → Type 0
TakesSemaphores {W} h =
    (w : W) (addr : ℕ) (words : List ℕ)
    → h.read_words w addr 4 ≡ some words
    → cmd_semaphore (get_or words 1 0) ≡ true

module _ {W : Type 0} (h : Host W) (takes : TakesSemaphores h) (i : ℕ) (below : i < 8) where
  -- What a load leaves: the semaphore, and on success a command that takes it.
  abbrev pub LoadsFrom : Dma → Loaded W → Type 0
  LoadsFrom s l =
      (length l.machine.dma.ch ≡ length s.ch)
      × ((channel l.machine.dma i).sema ≡ (channel s i).sema)
      × (l.success ≡ true → cmd_semaphore (channel l.machine.dma i).loaded_cmd ≡ true)

  finish_load-LoadsFrom :
      (m : Machine W) (c : Channel)
      → length m.dma.ch ≡ 8
      → c.sema ≡ (channel m.dma i).sema
      → cmd_semaphore c.loaded_cmd ≡ true
      → LoadsFrom m.dma (finish_load h m i c)
  unfolding finish_load reflected
  finish_load-LoadsFrom m c size same has_it =
      if_split (λ (t : Machine W). LoadsFrom m.dma (record { success = true; machine = t }))
        (ltb 0 c.num_pio_words && h.has_handler i) _ _
        (λ _. loads (h.pio m.world i (take c.num_pio_words c.pio_words))) (λ _. loads m.world)
    where
      shown : Channel
      shown = reflected c (channel m.dma i).nxtcmdar

      now : channel (put_channel m.dma i shown) i ≡ shown
      now = get_or-set_self m.dma.ch i shown channel_zero (omega arith)

      loads :
          (w : W)
          → LoadsFrom m.dma (record {
            success = true;
            machine = record { dma = put_channel m.dma i shown; world = w };
          })
      loads w = (
        length-set m.dma.ch i shown,
        ap (λ (d : Channel). d.sema) now ∙ same,
        λ yes. ap (λ (d : Channel). cmd_semaphore d.loaded_cmd) now ∙ has_it,
      )

  load_pio-LoadsFrom :
      (m : Machine W) (c : Channel)
      → length m.dma.ch ≡ 8
      → c.sema ≡ (channel m.dma i).sema
      → cmd_semaphore c.loaded_cmd ≡ true
      → LoadsFrom m.dma (load_pio h m i c)
  unfolding load_pio
  load_pio-LoadsFrom m c size same has_it =
      let now = get_or-set_self m.dma.ch i c channel_zero (omega arith) in
      if_split (LoadsFrom m.dma) (ltb 0 c.num_pio_words) _ _
        (λ _.
          Option_split (LoadsFrom m.dma)
            (h.read_words m.world ((channel m.dma i).nxtcmdar + 12) c.num_pio_words) _ _
            (length-set m.dma.ch i c, ap (λ (d : Channel). d.sema) now ∙ same, λ no. cc)
            (λ words e.
              finish_load-LoadsFrom m (record c { pio_words = overwrite words c.pio_words }) size
                same has_it))
        (λ _. finish_load-LoadsFrom m c size same has_it)

  pub load_command-LoadsFrom :
      (m : Machine W) → length m.dma.ch ≡ 8 → LoadsFrom m.dma (load_command h i m)
  unfolding load_command fetched
  load_command-LoadsFrom m size =
      let c = channel m.dma i in
      if_split (LoadsFrom m.dma) (c.nxtcmdar == 0) _ _ (λ _. (refl, refl, λ no. cc))
        λ _.
          Option_split (LoadsFrom m.dma) (h.read_words m.world c.nxtcmdar 4) _ _
            (refl, refl, λ no. cc)
            λ words e.
              load_pio-LoadsFrom m (fetched c words) size refl (takes m.world c.nxtcmdar words e)

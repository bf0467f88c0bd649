-- ===== src/Dma/Total.antt =====
-- Every register write returns when the guest's descriptors take the semaphore
-- (hw/dma/stmp3770_dma.c).
use emu_gii.Prelude.{
  ℕ, ◌≡◌, ◌<◌, refl, ◌∙◌, bit_and, not, ◌&&◌, Bool, Option, none, some, length, length-set, ltb,
  for_below_inv, if_split, if◌then◌else◌,
}
use emu_gii.Bits.{bit}
use emu_gii.Reg.{u32, not32, ◌<<<◌, ◌>>>◌, base_of}
use emu_gii.Dma.Host.{Host}
use emu_gii.Dma.State.{
  Dma, channel, reset_channel, channel_active_for_ctrl, update_irq, update_all_irqs,
}
use emu_gii.Dma.Command.{Machine}
use emu_gii.Dma.Run.{change_channel, kick_channel, resume_channels, and_then}
use emu_gii.Dma.Bus.{
  ChannelReg, Register, Access, access_of, decode, masked_write, ctrl0_writable, tie_clkgate,
  reset_channels, incremented, write_ctrl0, write_sema, write_register, write,
}
use emu_gii.Dma.Invariant.{IsValid}
use emu_gii.Dma.Steps.{Keeps}
use emu_gii.Dma.Loads.{TakesSemaphores}
use emu_gii.Dma.Fuel.{Returns, kick_channel-Returns}
use emu_gii.Dma.Writes.{ChannelBelow, decode-Below, write-Keeps}

module _ {W : Type 0} (h : Host W) (takes : TakesSemaphores h) where
  resume_channels-Returns :
      (old new : ℕ) (m : Machine W)
      → length m.dma.ch ≡ 8
      → Returns (resume_channels h 256 old new m)
  unfolding resume_channels
  resume_channels-Returns old new m size = for_below_inv (λ n. Returns) 8 _ (some m) size resumed
    where
      wakes : Machine W → ℕ → Bool
      wakes t i =
          not (channel_active_for_ctrl t.dma.is_apbx old i)
          && channel_active_for_ctrl t.dma.is_apbx new i

      resumed :
          (i : ℕ) (o : Option (Machine W))
          → i < 8
          → Returns o
          → Returns (and_then o (λ t. if wakes t i then kick_channel h 256 i t else some t))
      resumed i none below u = u
      resumed i (some t) below u =
          if_split Returns (wakes t i) _ _ (λ _. kick_channel-Returns h takes i below t u) (λ _. u)

  reset_channels-length :
      (bits : ℕ) (s : Dma) → length s.ch ≡ 8 → length (reset_channels bits s).ch ≡ 8
  unfolding reset_channels reset_channel
  reset_channels-length bits s size =
      for_below_inv (λ n (t : Dma). length t.ch ≡ 8) 8 _ s size
        (λ i t h u.
          if_split (λ (t : Dma). length t.ch ≡ 8) (bit bits i) _ _ (λ _. length-set t.ch i _ ∙ u)
            (λ _. u))

  write_register-Returns :
      (reg : Register) (a : Access) (m : Machine W)
      → ChannelBelow reg
      → length m.dma.ch ≡ 8
      → Returns (write_register h 256 reg a m)
  unfolding write_register write_ctrl0 write_sema update_all_irqs update_irq
  write_register-Returns Register.ctrl0 a m b size =
      let new = tie_clkgate (masked_write (ctrl0_writable m.dma.is_apbx) a m.dma.ctrl0) in
      resume_channels-Returns m.dma.ctrl0 (bit_and new (not32 0x00ff_0000)) _
        (reset_channels-length (bit_and (new >>> 16) 0xff) m.dma size)
  write_register-Returns Register.ctrl1 a m b size =
      for_below_inv (λ n (t : Dma). length t.ch ≡ 8) 8 update_irq _ size (λ i t h u. u)
  write_register-Returns Register.devsel a m b size = size
  write_register-Returns Register.version a m b size = size
  write_register-Returns Register.bad a m b size = size
  write_register-Returns (Register.of_channel n ChannelReg.curcmdar) a m b size = size
  write_register-Returns (Register.of_channel n ChannelReg.nxtcmdar) a m b size =
      length-set m.dma.ch n _ ∙ size
  write_register-Returns (Register.of_channel n ChannelReg.cmd) a m b size = size
  write_register-Returns (Register.of_channel n ChannelReg.bar) a m b size = size
  write_register-Returns (Register.of_channel n ChannelReg.sema) a m b size =
      let increment = bit_and (u32 (a.value <<< a.shift)) 0xff in
      let raised = length-set m.dma.ch n (incremented increment (channel m.dma n)) ∙ size in
      if_split Returns (ltb 0 increment) _ _
        (λ _.
          kick_channel-Returns h takes n b
            (record m { dma = change_channel n (incremented increment) m.dma }) raised)
        (λ _. raised)
  write_register-Returns (Register.of_channel n ChannelReg.debug1) a m b size = size
  write_register-Returns (Register.of_channel n ChannelReg.debug2) a m b size = size

  write-Returns :
      (offset value size : ℕ) (m : Machine W)
      → length m.dma.ch ≡ 8
      → Returns (write h 256 offset value size m)
  unfolding write
  write-Returns offset value size m =
      write_register-Returns (decode (base_of offset)) (access_of offset value size) m
        (decode-Below (base_of offset))

  both :
      (o : Option (Machine W))
      → Returns o
      → Keeps o
      → (m' : Machine W) × (o ≡ some m') × IsValid m'.dma
  both none r v = absurd r
  both (some m) r v = (m, refl, v)

  -- If every descriptor that the channels can read carries SEMAPHORE, whatever the peripherals do
  -- to memory, then a write to any offset, of any size and value, in a valid state returns, with
  -- 256 rounds of a chain as fuel, and the state that it returns is valid.
  pub write-Completes :
      (offset value size : ℕ) (m : Machine W)
      → IsValid m.dma
      → (m' : Machine W) × (write h 256 offset value size m ≡ some m') × IsValid m'.dma
  write-Completes offset value size m v =
      both (write h 256 offset value size m) (write-Returns offset value size m v.size)
        (write-Keeps h 256 offset value size m v)

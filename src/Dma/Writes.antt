-- ===== src/Dma/Writes.antt =====
-- Every register write keeps the invariant (hw/dma/stmp3770_dma.c).
use emu_gii.Prelude.{
  ℕ, ◌<◌, ◌≤◌, refl, bit_and, not, ◌&&◌, Option, none, some, ltb, ◌==◌, for_below_inv, arith,
  if_split, if◌then◌else◌,
}
use emu_gii.Reg.{u32, not32, ◌<<<◌, ◌>>>◌, base_of}
use emu_gii.Dma.Host.{Host}
use emu_gii.Dma.State.{phore_of, channel_active_for_ctrl}
use emu_gii.Dma.Command.{Machine}
use emu_gii.Dma.Run.{change_channel, kick_channel, resume_channels, and_then}
use emu_gii.Dma.Bus.{
  ChannelReg, Register, Access, access_of, decode, match_channel, or_channel, masked_write,
  ctrl0_writable, tie_clkgate, add_semaphore, incremented, nxtcmdar_write, write_ctrl0, write_sema,
  write_register, write,
}
use emu_gii.Dma.Invariant.{IsValid, change_channel-IsValid, kept-ChannelFits, sema-ChannelFits}
use emu_gii.Dma.Steps.{Keeps, kick_channel-Keeps}
use emu_gii.Dma.Writable.{masked_write-lt, written_ctrl0-Fits}
use emu_gii.Dma.Resets.{update_all_irqs-IsValid, reset_channels-IsValid}

-- Resuming the channels, whatever the two values of CTRL0 are.
resume_channels-Keeps :
    {W : Type 0} (h : Host W) (fuel old new : ℕ) (m : Machine W)
    → IsValid m.dma
    → Keeps (resume_channels h fuel old new m)
unfolding resume_channels
resume_channels-Keeps {W} h fuel old new m v = for_below_inv (λ n. Keeps) 8 _ (some m) v resumed
  where
    resumed :
        (i : ℕ) (o : Option (Machine W))
        → i < 8
        → Keeps o
        → Keeps (
            and_then o (λ t.
              if not (channel_active_for_ctrl t.dma.is_apbx old i)
                && channel_active_for_ctrl t.dma.is_apbx new i
              then kick_channel h fuel i t
              else some t))
    resumed i none below u = tt
    resumed i (some t) below u =
        if_split Keeps
          (not (channel_active_for_ctrl t.dma.is_apbx old i)
            && channel_active_for_ctrl t.dma.is_apbx new i)
          _ _ (λ _. kick_channel-Keeps h i below fuel t u) (λ _. u)

-- A decoded channel exists.
abbrev pub ChannelBelow : Register → Type 0
ChannelBelow (Register.of_channel n reg) = n < 8
ChannelBelow _ = Unit

or_channel-Below :
    (n : ℕ) (o : Option ChannelReg) (found : Register)
    → n < 8
    → ChannelBelow found
    → ChannelBelow (or_channel n o found)
or_channel-Below n none Register.ctrl0 h b = tt
or_channel-Below n none Register.ctrl1 h b = tt
or_channel-Below n none Register.devsel h b = tt
or_channel-Below n none Register.version h b = tt
or_channel-Below n none Register.bad h b = tt
or_channel-Below n none (Register.of_channel m reg) h b = b
or_channel-Below n (some r) Register.ctrl0 h b = tt
or_channel-Below n (some r) Register.ctrl1 h b = tt
or_channel-Below n (some r) Register.devsel h b = tt
or_channel-Below n (some r) Register.version h b = tt
or_channel-Below n (some r) Register.bad h b = h
or_channel-Below n (some r) (Register.of_channel m reg) h b = b

pub decode-Below : (base : ℕ) → ChannelBelow (decode base)
unfolding decode
decode-Below base =
    if_split ChannelBelow (base == 0x000) _ _ (λ _. tt)
      λ _.
        if_split ChannelBelow (base == 0x010) _ _ (λ _. tt)
          λ _.
            if_split ChannelBelow (base == 0x020) _ _ (λ _. tt)
              λ _.
                if_split ChannelBelow (base == 0x3F0) _ _ (λ _. tt)
                  λ _.
                    for_below_inv (λ n. ChannelBelow) 8 _ Register.bad tt
                      (λ n found h. or_channel-Below n (match_channel base n) found h)

add_semaphore-le : (phore increment : ℕ) → add_semaphore phore increment ≤ 255
unfolding add_semaphore
add_semaphore-le phore increment = ground arith

module _ {W : Type 0} (h : Host W) (fuel : ℕ) where
  write_ctrl0-Keeps : (a : Access) (m : Machine W) → IsValid m.dma → Keeps (write_ctrl0 h fuel a m)
  unfolding write_ctrl0
  write_ctrl0-Keeps a m v =
      let new = tie_clkgate (masked_write (ctrl0_writable m.dma.is_apbx) a m.dma.ctrl0) in
      let u = reset_channels-IsValid (bit_and (new >>> 16) 0xff) m.dma v in
      resume_channels-Keeps h fuel m.dma.ctrl0 (bit_and new (not32 0x00ff_0000)) _ (record {
        size = u.size;
        fits = u.fits;
        lines = u.lines;
        ctrl0_fits = written_ctrl0-Fits m.dma.is_apbx a m.dma.ctrl0 v.ctrl0_fits;
        ctrl1_fits = u.ctrl1_fits;
      })

  write_sema-Keeps :
      (a : Access) (n : ℕ) (m : Machine W) → n < 8 → IsValid m.dma → Keeps (write_sema h fuel a n m)
  unfolding write_sema
  write_sema-Keeps a n m below v =
      let increment = bit_and (u32 (a.value <<< a.shift)) 0xff in
      let raised =
        change_channel-IsValid n (incremented increment) m.dma
          (λ c f.
            sema-ChannelFits (incremented increment c) (add_semaphore (phore_of c) increment)
              (add_semaphore-le (phore_of c) increment) refl f.latch_waits)
          v in
      if_split Keeps (ltb 0 increment) _ _
        (λ _.
          kick_channel-Keeps h n below fuel
            (record m { dma = change_channel n (incremented increment) m.dma }) raised)
        (λ _. raised)

  write_register-Keeps :
      (reg : Register) (a : Access) (m : Machine W)
      → ChannelBelow reg
      → IsValid m.dma
      → Keeps (write_register h fuel reg a m)
  unfolding write_register
  write_register-Keeps Register.ctrl0 a m b v = write_ctrl0-Keeps a m v
  write_register-Keeps Register.ctrl1 a m b v =
      update_all_irqs-IsValid _ (v.lines.0) v.size v.fits v.ctrl0_fits
        (masked_write-lt 24 0x00ff_ffff m.dma.ctrl1 a v.ctrl1_fits (omega arith))
  write_register-Keeps Register.devsel a m b v = record {
    size = v.size;
    fits = v.fits;
    lines = v.lines;
    ctrl0_fits = v.ctrl0_fits;
    ctrl1_fits = v.ctrl1_fits;
  }
  write_register-Keeps Register.version a m b v = v
  write_register-Keeps Register.bad a m b v = v
  write_register-Keeps (Register.of_channel n ChannelReg.curcmdar) a m b v = v
  write_register-Keeps (Register.of_channel n ChannelReg.nxtcmdar) a m b v =
      change_channel-IsValid n (λ c. record c { nxtcmdar = nxtcmdar_write a c.nxtcmdar }) m.dma
        (λ c f.
          kept-ChannelFits c (record c { nxtcmdar = nxtcmdar_write a c.nxtcmdar }) refl refl refl f)
        v
  write_register-Keeps (Register.of_channel n ChannelReg.cmd) a m b v = v
  write_register-Keeps (Register.of_channel n ChannelReg.bar) a m b v = v
  write_register-Keeps (Register.of_channel n ChannelReg.sema) a m b v = write_sema-Keeps a n m b v
  write_register-Keeps (Register.of_channel n ChannelReg.debug1) a m b v = v
  write_register-Keeps (Register.of_channel n ChannelReg.debug2) a m b v = v

  -- If a write to any offset, of any size and value, returns a state, it satisfies the invariant
  -- of the engine if the state before it did: each interrupt line is at the level that CTRL1 asks
  -- for, CLKGATE equals SFTRST and bits 29:16 of CTRL0 read as zero, CTRL1 keeps to its 24 bits,
  -- each SEMA register holds its count alone, and a completion is latched only for a waiting
  -- command. The chains that the write sets off are included, for any memory, any peripherals and
  -- any fuel.
  pub write-Keeps :
      (offset value size : ℕ) (m : Machine W)
      → IsValid m.dma
      → Keeps (write h fuel offset value size m)
  unfolding write
  write-Keeps offset value size m v =
      write_register-Keeps (decode (base_of offset)) (access_of offset value size) m
        (decode-Below (base_of offset)) v

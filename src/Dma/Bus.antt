-- ===== src/Dma/Bus.antt =====
-- The memory-mapped registers of the DMA engines (hw/dma/stmp3770_dma.c).
use emu_gii.Prelude.{
  ℕ, ◌+◌, ◌*◌, ◌^◌, bit_and, bit_or, Bool, Option, none, some, ltb, ◌==◌, if◌then◌else◌, for_below,
}
use emu_gii.Bits.{bit}
use emu_gii.Reg.{
  u32, ◌<<<◌, ◌>>>◌, not32, has, Alias, apply_sct, alias_field, base_of, byte_shift, size_mask,
  read_subword,
}
use emu_gii.Dma.Host.{Host}
use emu_gii.Dma.State.{
  Channel, Dma, num_channels, ctrl0_sftrst, ctrl0_clkgate, channel, reset_channel, update_all_irqs,
  phore_of,
}
use emu_gii.Dma.Command.{Machine}
use emu_gii.Dma.Run.{change_channel, kick_channel, resume_channels}

-- The seven registers of a channel, by their distance from the channel's base.
pub data ChannelReg : Type 0 where
  curcmdar nxtcmdar cmd bar sema debug1 debug2 : ChannelReg

pub data Register : Type 0 where
  ctrl0 ctrl1 devsel version bad : Register
  of_channel : ℕ → ChannelReg → Register

abbrev pub channel_base : ℕ → ℕ
channel_base n = 0x040 + n * 0x70

-- The comparisons of one round of the loops over the channels.
unfoldable pub match_channel : ℕ → ℕ → Option ChannelReg
match_channel base n =
    if base == channel_base n + 0x00
    then some ChannelReg.curcmdar
    else if base == channel_base n + 0x10
    then some ChannelReg.nxtcmdar
    else if base == channel_base n + 0x20
    then some ChannelReg.cmd
    else if base == channel_base n + 0x30
    then some ChannelReg.bar
    else if base == channel_base n + 0x40
    then some ChannelReg.sema
    else if base == channel_base n + 0x50
    then some ChannelReg.debug1
    else if base == channel_base n + 0x60
    then some ChannelReg.debug2
    else none

abbrev pub or_channel : ℕ → Option ChannelReg → Register → Register
or_channel n (some reg) Register.bad = Register.of_channel n reg
or_channel n _ found = found

-- The first channel that matches ends the loop.
unfoldable pub decode : ℕ → Register
unfolding match_channel
decode base =
    if base == 0x000
    then Register.ctrl0
    else if base == 0x010
    then Register.ctrl1
    else if base == 0x020
    then Register.devsel
    else if base == 0x3F0
    then Register.version
    else for_below num_channels (λ n found. or_channel n (match_channel base n) found) Register.bad

unfoldable pub channel_value : Channel → ChannelReg → ℕ
unfolding phore_of
channel_value c ChannelReg.curcmdar = c.curcmdar
channel_value c ChannelReg.nxtcmdar = c.nxtcmdar
channel_value c ChannelReg.cmd = c.cmd
channel_value c ChannelReg.bar = c.bar
channel_value c ChannelReg.sema = u32 (phore_of c <<< 16)
channel_value c ChannelReg.debug1 =
    bit_or 0x00a0_0000
      (bit_or (if phore_of c == 0 then 0x00 else 0x0f) (if c.nxtcmdar == 0 then 0 else 2 ^ 24))
channel_value c ChannelReg.debug2 = c.debug2

unfoldable pub register_value : Dma → Register → ℕ
unfolding channel_value
register_value s Register.ctrl0 = s.ctrl0
register_value s Register.ctrl1 = s.ctrl1
register_value s Register.devsel = s.devsel
register_value s Register.version = 0x0101_0000
register_value s Register.bad = 0
register_value s (Register.of_channel n reg) = channel_value (channel s n) reg

-- Reads have no side effect.
unfoldable pub read : Dma → ℕ → ℕ → ℕ
unfolding decode register_value read_subword
read s offset size = read_subword (register_value s (decode (base_of offset))) offset size

-- What a write hands to its register: the alias, the value and the bytes that it covers.
pub record Access : Type 0 where
  pub sct : Alias
  pub value : ℕ
  pub shift : ℕ
  pub mask : ℕ

unfoldable pub access_of : ℕ → ℕ → ℕ → Access
unfolding size_mask alias_field
access_of offset value size = record {
  sct = alias_field offset;
  value = u32 value;
  shift = byte_shift offset;
  mask = size_mask size;
}

abbrev pub full_mask : Access → ℕ
full_mask a = u32 (a.mask <<< a.shift)

-- `(reg & ~wmask) | (cur & wmask)` for `cur` the register after the alias's operation.
unfoldable pub masked_write : ℕ → Access → ℕ → ℕ
masked_write writable a reg =
    let wmask = bit_and writable (full_mask a) in
    let cur = apply_sct a.sct reg (u32 (a.value <<< a.shift)) in
    bit_or (bit_and reg (not32 wmask)) (bit_and cur wmask)

unfoldable pub ctrl0_writable : Bool → ℕ
ctrl0_writable is_apbx = if is_apbx then 0xc0ff_00ff else 0xc0ff_ffff

-- CLKGATE follows SFTRST.
unfoldable pub tie_clkgate : ℕ → ℕ
tie_clkgate x =
    if has x ctrl0_sftrst then bit_or x ctrl0_clkgate else bit_and x (not32 ctrl0_clkgate)

unfoldable pub devsel_writable : Bool → ℕ
devsel_writable is_apbx = if is_apbx then 0xff00_0f00 else 0

-- The loop that resets the channels of `RESET_CHANNEL`.
unfoldable pub reset_channels : ℕ → Dma → Dma
reset_channels bits s =
    for_below num_channels (λ i t. if bit bits i then reset_channel i t else t) s

-- The semaphore after an increment, which saturates.
unfoldable pub add_semaphore : ℕ → ℕ → ℕ
add_semaphore phore increment = if ltb 0xff (phore + increment) then 0xff else phore + increment

abbrev pub incremented : ℕ → Channel → Channel
incremented increment c = record c { sema = u32 (add_semaphore (phore_of c) increment <<< 16) }

-- The value that a write of NXTCMDAR stores.
unfoldable pub nxtcmdar_write : Access → ℕ → ℕ
nxtcmdar_write a old =
    let cur = apply_sct a.sct (bit_and (old >>> a.shift) a.mask) a.value in
    bit_or (bit_and old (not32 (full_mask a))) (u32 (bit_and cur a.mask <<< a.shift))

module _ {W : Type 0} (h : Host W) where
  unfoldable pub write_ctrl0 : ℕ → Access → Machine W → Option (Machine W)
  unfolding masked_write ctrl0_writable tie_clkgate reset_channels
  write_ctrl0 fuel a m =
      let old = m.dma.ctrl0 in
      let new = tie_clkgate (masked_write (ctrl0_writable m.dma.is_apbx) a old) in
      let bits = bit_and (new >>> 16) 0xff in
      let cleared = bit_and new (not32 0x00ff_0000) in
      let s = record (reset_channels bits m.dma) { ctrl0 = cleared } in
      resume_channels h fuel old cleared (record m { dma = s })

  unfoldable pub write_sema : ℕ → Access → ℕ → Machine W → Option (Machine W)
  write_sema fuel a n m =
      let increment = bit_and (u32 (a.value <<< a.shift)) 0xff in
      let t = record m { dma = change_channel n (incremented increment) m.dma } in
      if ltb 0 increment then kick_channel h fuel n t else some t

  unfoldable pub write_register : ℕ → Register → Access → Machine W → Option (Machine W)
  unfolding write_ctrl0 write_sema masked_write devsel_writable nxtcmdar_write
  write_register fuel Register.ctrl0 a m = write_ctrl0 fuel a m
  write_register fuel Register.ctrl1 a m =
      let s = m.dma in
      some (record m {
        dma = update_all_irqs (record s { ctrl1 = masked_write 0x00ff_ffff a s.ctrl1 });
      })
  write_register fuel Register.devsel a m =
      let s = m.dma in
      let next = masked_write (devsel_writable s.is_apbx) a s.devsel in
      some (record m { dma = record s { devsel = next } })
  write_register fuel (Register.of_channel n ChannelReg.nxtcmdar) a m = some (record m {
    dma = change_channel n (λ c. record c { nxtcmdar = nxtcmdar_write a c.nxtcmdar }) m.dma;
  })
  write_register fuel (Register.of_channel n ChannelReg.sema) a m = write_sema fuel a n m
  write_register fuel _ a m = some m

  unfoldable pub write : ℕ → ℕ → ℕ → ℕ → Machine W → Option (Machine W)
  unfolding decode write_register access_of
  write fuel offset value size m =
      write_register fuel (decode (base_of offset)) (access_of offset value size) m

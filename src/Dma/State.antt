-- ===== src/Dma/State.antt =====
-- `STMP3770DMAState` and `STMP3770DMAChannel` (include/hw/dma/stmp3770_dma.h), the interrupt
-- lines, the channel reset and the activity test of hw/dma/stmp3770_dma.c.
use emu_gii.Prelude.{
  ℕ, ◌+◌, ◌^◌, bit_and, Bool, false, not, ◌&&◌, ◌||◌, List, get_or, set, for_below, replicate,
}
use emu_gii.Bits.{bit}
use emu_gii.Reg.{has, ◌>>>◌}

-- The transfer buffer of a channel is memory that the host reuses, and no state of the device.
pub record Channel : Type 0 where
  pub curcmdar : ℕ
  pub nxtcmdar : ℕ
  pub cmd : ℕ
  pub bar : ℕ
  pub sema : ℕ
  pub debug1 : ℕ
  pub debug2 : ℕ
  pub loaded_nxtcmdar : ℕ
  pub loaded_cmd : ℕ
  pub loaded_bar : ℕ
  pub pio_words : List ℕ
  pub num_pio_words : ℕ
  pub wait4endcmd_pending : Bool
  pub wait4endcmd_completion : Bool

-- `irq` holds the level of each of the eight output lines.
pub record Dma : Type 0 where
  pub irq : List Bool
  pub ctrl0 : ℕ
  pub ctrl1 : ℕ
  pub devsel : ℕ
  pub ch : List Channel
  pub is_apbx : Bool

abbrev pub num_channels : ℕ
num_channels = 8

abbrev pub ctrl0_sftrst : ℕ
ctrl0_sftrst = 2 ^ 31

abbrev pub ctrl0_clkgate : ℕ
ctrl0_clkgate = 2 ^ 30

abbrev pub ctrl0_stopped : ℕ
ctrl0_stopped = 0xc000_0000

-- `stmp3770_dma_channel_active_for_ctrl`: bits 23:16 reset a channel, 7:0 freeze it and, on APBH,
-- 15:8 gate its clock.
unfoldable pub channel_active_for_ctrl : Bool → ℕ → ℕ → Bool
channel_active_for_ctrl is_apbx ctrl0 i =
    not (has ctrl0 ctrl0_stopped)
    && not (bit ctrl0 (i + 16))
    && not (bit ctrl0 i)
    && not (not is_apbx && bit ctrl0 (i + 8))

unfoldable pub channel_active : Dma → ℕ → Bool
channel_active s i = channel_active_for_ctrl s.is_apbx s.ctrl0 i

-- The level that `stmp3770_dma_update_irq` gives a line: a completion that is enabled (bits 7:0
-- and 15:8 of CTRL1), or a bus error (bits 23:16).
unfoldable pub irq_level : ℕ → ℕ → Bool
irq_level ctrl1 i = (bit ctrl1 i && bit ctrl1 (i + 8)) || bit ctrl1 (i + 16)

unfoldable pub update_irq : ℕ → Dma → Dma
update_irq i s = record s { irq = set s.irq i (irq_level s.ctrl1 i) }

unfoldable pub update_all_irqs : Dma → Dma
update_all_irqs s = for_below num_channels update_irq s

-- Both FIFOs empty, state machine idle.
abbrev pub debug1_idle : ℕ
debug1_idle = 0x00a0_0000

abbrev pub channel_zero : Channel
channel_zero = record {
  curcmdar = 0;
  nxtcmdar = 0;
  cmd = 0;
  bar = 0;
  sema = 0;
  debug1 = debug1_idle;
  debug2 = 0;
  loaded_nxtcmdar = 0;
  loaded_cmd = 0;
  loaded_bar = 0;
  pio_words = replicate 15 0;
  num_pio_words = 0;
  wait4endcmd_pending = false;
  wait4endcmd_completion = false;
}

abbrev pub channel : Dma → ℕ → Channel
channel s i = get_or s.ch i channel_zero

abbrev pub put_channel : Dma → ℕ → Channel → Dma
put_channel s i c = record s { ch = set s.ch i c }

-- `stmp3770_dma_reset_channel`; the PIO words stay.
unfoldable pub reset_channel : ℕ → Dma → Dma
reset_channel i s = put_channel s i (record channel_zero { pio_words = (channel s i).pio_words })

unfoldable pub reset : Dma → Dma
unfolding reset_channel update_all_irqs update_irq
reset s = update_all_irqs (
    for_below num_channels reset_channel
      (record s { ctrl0 = ctrl0_stopped; ctrl1 = 0; devsel = 0 }))

-- `(ch->sema >> SEMA_PHORE_SHIFT) & SEMA_PHORE_MASK`
unfoldable pub phore_of : Channel → ℕ
phore_of c = bit_and (c.sema >>> 16) 0xff

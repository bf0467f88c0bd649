-- ===== src/Dma/Invariant.antt =====
-- The invariant of the DMA engines, and the steps that keep it (hw/dma/stmp3770_dma.c).
use emu_gii.Prelude.{
  ℕ, ◌+◌, ◌-◌, ◌*◌, ◌^◌, ◌<◌, ◌≤◌, ◌≡◌, refl, sym, ◌∙◌, ap, bit_and, bit_or, Bool, true, false,
  length, length-set, AllAt, set-AllAt, arith, if_split, if◌then◌else◌,
}
use emu_gii.Bits.{bit, bit_and-le_right, bit_and_mask, bit_or-lt, pow-lt}
use emu_gii.Reg.{u32, ◌<<<◌, ◌>>>◌}
use emu_gii.Dma.State.{Channel, Dma, channel_zero, channel, put_channel, phore_of, update_irq}
use emu_gii.Dma.Run.{change_channel, take_semaphore, completion_irq, retire, advanced, advance}
use emu_gii.Dma.Transfer.{bus_error}
use emu_gii.Dma.Command.{cmd_semaphore, cmd_irqoncmplt}
use emu_gii.Dma.Lines.{LinesFollow, completion_irq-LinesFollow, bus_error-LinesFollow}

-- SEMA holds the count and nothing else, and a latched completion belongs to a waiting command.
pub record ChannelFits (c : Channel) : Type 0 where
  pub sema_fits : c.sema ≡ phore_of c * 2 ^ 16
  pub latch_waits : c.wait4endcmd_completion ≡ true → c.wait4endcmd_pending ≡ true

-- CTRL0: the clock gate goes with the reset, and the channel reset bits and the reserved bits read
-- as zero. CTRL1 has 24 bits.
abbrev pub Ctrl0Fits : ℕ → Type 0
Ctrl0Fits ctrl0 =
    (bit ctrl0 31 ≡ bit ctrl0 30)
    × ((k : ℕ) → 16 ≤ k → k < 30 → bit ctrl0 k ≡ false)
    × (ctrl0 < 2 ^ 32)

pub record IsValid (s : Dma) : Type 0 where
  pub size : length s.ch ≡ 8
  pub fits : AllAt channel_zero ChannelFits s.ch
  pub lines : LinesFollow s
  pub ctrl0_fits : Ctrl0Fits s.ctrl0
  pub ctrl1_fits : s.ctrl1 < 2 ^ 24

pub phore_of-le : (c : Channel) → phore_of c ≤ 255
unfolding phore_of
phore_of-le c = bit_and-le_right (c.sema >>> 16) 0xff

-- The count read from a register that was written with a count.
pub phore_of-sema : (c : Channel) (p : ℕ) → p ≤ 255 → c.sema ≡ u32 (p <<< 16) → phore_of c ≡ p
unfolding phore_of
phore_of-sema c p h e = bit_and_mask 8 (c.sema >>> 16) ∙ omega arith

pub sema-ChannelFits :
    (c : Channel) (p : ℕ)
    → p ≤ 255
    → c.sema ≡ u32 (p <<< 16)
    → (c.wait4endcmd_completion ≡ true → c.wait4endcmd_pending ≡ true)
    → ChannelFits c
sema-ChannelFits c p h e latch = record {
  sema_fits = omega (arith, phore_of-sema c p h e);
  latch_waits = latch;
}

pub change_channel-IsValid :
    (i : ℕ) (f : Channel → Channel) (s : Dma)
    → ((c : Channel) → ChannelFits c → ChannelFits (f c))
    → IsValid s
    → IsValid (change_channel i f s)
change_channel-IsValid i f s keeps v = record {
  size = length-set s.ch i (f (channel s i)) ∙ v.size;
  fits =
      set-AllAt channel_zero ChannelFits s.ch i (f (channel s i)) (keeps (channel s i) (v.fits i))
        v.fits;
  lines = v.lines;
  ctrl0_fits = v.ctrl0_fits;
  ctrl1_fits = v.ctrl1_fits;
}

pub put_channel-IsValid :
    (i : ℕ) (c : Channel) (s : Dma) → ChannelFits c → IsValid s → IsValid (put_channel s i c)
put_channel-IsValid i c s f v = change_channel-IsValid i (λ old. c) s (λ old g. f) v

flag_fits : (x k : ℕ) → x < 2 ^ 24 → k < 24 → bit_or x (2 ^ k) < 2 ^ 24
flag_fits x k h below = bit_or-lt 24 x (2 ^ k) h (pow-lt k 24 below)

pub completion_irq-IsValid : (i : ℕ) (s : Dma) → i < 8 → IsValid s → IsValid (completion_irq i s)
unfolding completion_irq update_irq
completion_irq-IsValid i s h v = record {
  size = v.size;
  fits = v.fits;
  lines = completion_irq-LinesFollow i s h v.lines;
  ctrl0_fits = v.ctrl0_fits;
  ctrl1_fits = flag_fits s.ctrl1 i v.ctrl1_fits (omega arith);
}

pub bus_error-IsValid : (i : ℕ) (s : Dma) → i < 8 → IsValid s → IsValid (bus_error i s)
unfolding bus_error update_irq
bus_error-IsValid i s h v = record {
  size = v.size;
  fits = v.fits;
  lines = bus_error-LinesFollow i s h v.lines;
  ctrl0_fits = v.ctrl0_fits;
  ctrl1_fits = flag_fits s.ctrl1 (i + 16) v.ctrl1_fits (omega arith);
}

-- A change that leaves the semaphore and the waiting flags alone.
pub kept-ChannelFits :
    (c d : Channel)
    → d.sema ≡ c.sema
    → d.wait4endcmd_completion ≡ c.wait4endcmd_completion
    → d.wait4endcmd_pending ≡ c.wait4endcmd_pending
    → ChannelFits c
    → ChannelFits d
unfolding phore_of
kept-ChannelFits c d same e p f = record {
  sema_fits = same ∙ f.sema_fits ∙ ap (λ (x : ℕ). bit_and (x >>> 16) 0xff * 2 ^ 16) (sym same);
  latch_waits = λ on. p ∙ f.latch_waits (sym e ∙ on);
}

-- A change of the waiting flags alone.
pub flags-ChannelFits :
    (c d : Channel)
    → d.sema ≡ c.sema
    → (d.wait4endcmd_completion ≡ true → d.wait4endcmd_pending ≡ true)
    → ChannelFits c
    → ChannelFits d
unfolding phore_of
flags-ChannelFits c d same latch f = record {
  sema_fits = same ∙ f.sema_fits ∙ ap (λ (x : ℕ). bit_and (x >>> 16) 0xff * 2 ^ 16) (sym same);
  latch_waits = latch;
}

pub take_semaphore-IsValid :
    (i phore : ℕ) (s : Dma) → phore ≤ 255 → IsValid s → IsValid (take_semaphore i phore s)
unfolding take_semaphore
take_semaphore-IsValid i phore s h =
    change_channel-IsValid i (λ c. record c { sema = u32 ((phore - 1) <<< 16) }) s
      (λ c f. sema-ChannelFits _ (phore - 1) (omega arith) refl f.latch_waits)

pub advance-IsValid :
    (i cmd : ℕ) (branch : Bool) (s : Dma) → IsValid s → IsValid (advance i cmd branch s)
unfolding advance
advance-IsValid i cmd branch s v =
    if_split IsValid branch _ _ (λ _. v)
      (λ _.
        change_channel-IsValid i (advanced cmd) s
          (λ c f. kept-ChannelFits c (advanced cmd c) refl refl refl f) v)

-- Retiring a command keeps the invariant.
pub retire-IsValid :
    (i cmd phore : ℕ) (s : Dma) → i < 8 → phore ≤ 255 → IsValid s → IsValid (retire i cmd phore s)
unfolding retire
retire-IsValid i cmd phore s h le v =
    if_split IsValid (cmd_irqoncmplt cmd) _ _ (λ _. completion_irq-IsValid i _ h taken) (λ _. taken)
  where
    cleared : IsValid (change_channel i (λ c. record c { debug2 = 0 }) s)
    cleared =
        change_channel-IsValid i (λ c. record c { debug2 = 0 }) s
          (λ c f. kept-ChannelFits c _ refl refl refl f) v

    taken : IsValid (
        if cmd_semaphore cmd
        then take_semaphore i phore (change_channel i (λ c. record c { debug2 = 0 }) s)
        else change_channel i (λ c. record c { debug2 = 0 }) s)
    taken =
        if_split IsValid (cmd_semaphore cmd) _ _ (λ _. take_semaphore-IsValid i phore _ le cleared)
          (λ _. cleared)

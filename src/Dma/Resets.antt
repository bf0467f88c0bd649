-- ===== src/Dma/Resets.antt =====
-- The refresh of the lines and the resets keep the invariant (hw/dma/stmp3770_dma.c).
use emu_gii.Prelude.{
  ℕ, ◌+◌, ◌^◌, ◌<◌, ◌≡◌, refl, sym, ◌∙◌, ap, subst, true, not, List, length, length-set, AllAt,
  set-AllAt, all_below, for_below, for_below_inv, arith, if_split,
}
use emu_gii.Bits.{bit}
use emu_gii.Dma.State.{
  Channel, Dma, channel, channel_zero, reset_channel, update_irq, update_all_irqs, reset,
  ctrl0_stopped,
}
use emu_gii.Dma.Bus.{reset_channels}
use emu_gii.Dma.Lines.{update_all_irqs-LinesFollow}
use emu_gii.Dma.Invariant.{IsValid, ChannelFits, Ctrl0Fits, put_channel-IsValid, sema-ChannelFits}
use emu_gii.Dma.Writable.{clear_between}

-- The refresh of the lines changes nothing else.
OnlyLines : Dma → Dma → Type 0
OnlyLines s t = (t.ch ≡ s.ch) × (t.ctrl0 ≡ s.ctrl0) × (t.ctrl1 ≡ s.ctrl1)

update_all_irqs-only : (s : Dma) → OnlyLines s (update_all_irqs s)
unfolding update_all_irqs update_irq OnlyLines
update_all_irqs-only s =
    for_below_inv (λ n. OnlyLines s) 8 update_irq s (refl, refl, refl) (λ i t h same. same)

pub update_all_irqs-IsValid :
    (s : Dma)
    → length s.irq ≡ 8
    → length s.ch ≡ 8
    → AllAt channel_zero ChannelFits s.ch
    → Ctrl0Fits s.ctrl0
    → s.ctrl1 < 2 ^ 24
    → IsValid (update_all_irqs s)
unfolding OnlyLines
update_all_irqs-IsValid s irqs size fits c0 c1 =
    let (ch, ctrl0, ctrl1) = update_all_irqs-only s in
    record {
      size = ap (λ (l : List Channel). length l) ch ∙ size;
      fits = subst (AllAt channel_zero ChannelFits) (sym ch) fits;
      lines = update_all_irqs-LinesFollow s irqs;
      ctrl0_fits = subst Ctrl0Fits (sym ctrl0) c0;
      ctrl1_fits = subst (λ (x : ℕ). x < 2 ^ 24) (sym ctrl1) c1;
    }

cleared_channel : ℕ → Dma → Channel
cleared_channel i s = record channel_zero { pio_words = (channel s i).pio_words }

cleared-ChannelFits : (i : ℕ) (s : Dma) → ChannelFits (cleared_channel i s)
unfolding cleared_channel
cleared-ChannelFits i s = sema-ChannelFits _ 0 (omega arith) refl (λ on. cc)

stopped_table : all_below 14 (λ j. not (bit ctrl0_stopped (j + 16))) ≡ true
unfolding all_below bit
stopped_table = refl

-- CTRL0 after a reset: stopped, and all else clear.
stopped-Fits : Ctrl0Fits ctrl0_stopped
unfolding bit
stopped-Fits =
    (both, λ k low high. clear_between ctrl0_stopped 16 14 k stopped_table low high, omega arith)
  where
    both : bit ctrl0_stopped 31 ≡ bit ctrl0_stopped 30
    both = refl

reset_channel-IsValid : (i : ℕ) (s : Dma) → IsValid s → IsValid (reset_channel i s)
unfolding reset_channel cleared_channel
reset_channel-IsValid i s = put_channel-IsValid i (cleared_channel i s) s (cleared-ChannelFits i s)

pub reset_channels-IsValid : (bits : ℕ) (s : Dma) → IsValid s → IsValid (reset_channels bits s)
unfolding reset_channels
reset_channels-IsValid bits s v =
    for_below_inv (λ n. IsValid) 8 _ s v
      (λ i t h u. if_split IsValid (bit bits i) _ _ (λ _. reset_channel-IsValid i t u) (λ _. u))

-- Before the first reset the arrays have their lengths, and the waiting flags are off.
pub record IsWired (s : Dma) : Type 0 where
  pub channels : length s.ch ≡ 8
  pub lines : length s.irq ≡ 8
  pub fits : AllAt channel_zero ChannelFits s.ch

-- A device reset, of an engine whose arrays have their lengths and whose channels are well
-- formed, establishes the invariant.
reset-IsValid : (s : Dma) → IsWired s → IsValid (reset s)
unfolding reset reset_channel cleared_channel
reset-IsValid s w =
    let (size, fits, irqs, c0, c1) = after in
    update_all_irqs-IsValid _ irqs size fits (subst Ctrl0Fits (sym c0) stopped-Fits) (omega arith)
  where
    start : Dma
    start = record s { ctrl0 = ctrl0_stopped; ctrl1 = 0; devsel = 0 }

    Cleared : Dma → Type 0
    Cleared t =
        (length t.ch ≡ 8)
        × AllAt channel_zero ChannelFits t.ch
        × (length t.irq ≡ 8)
        × (t.ctrl0 ≡ ctrl0_stopped)
        × (t.ctrl1 ≡ 0)

    after : Cleared (for_below 8 reset_channel start)
    after =
        for_below_inv (λ n. Cleared) 8 reset_channel start (w.channels, w.fits, w.lines, refl, refl)
          λ i t h (size, fits, irqs, c0, c1). (
            length-set t.ch i (cleared_channel i t) ∙ size,
            set-AllAt channel_zero ChannelFits t.ch i (cleared_channel i t)
                (cleared-ChannelFits i t) fits,
            irqs,
            c0,
            c1,
          )

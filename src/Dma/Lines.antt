-- ===== src/Dma/Lines.antt =====
-- The interrupt lines of the DMA engines follow CTRL1 (hw/dma/stmp3770_dma.c).
use emu_gii.Prelude.{
  ℕ, suc, ◌+◌, ◌^◌, ◌<◌, ◌≡◌, ◌≢◌, ◌⊎◌, inl, inr, refl, sym, ◌∙◌, ap, bit_or, false, length, get_or,
  length-set, get_or-set, for_below_inv, arith,
}
use emu_gii.Bits.{bit-bit_or, bit-pow}
use emu_gii.Dma.State.{Dma, irq_level, update_irq, update_all_irqs}
use emu_gii.Dma.Run.{completion_irq}
use emu_gii.Dma.Transfer.{bus_error}

-- Each line is at the level that CTRL1 asks for.
abbrev pub LinesFollow : Dma → Type 0
LinesFollow s = (length s.irq ≡ 8) × ((i : ℕ) → i < 8 → get_or s.irq i false ≡ irq_level s.ctrl1 i)

-- Setting a channel's own flags does not move another channel's line.
irq_level-other :
    (ctrl1 k i j : ℕ)
    → (k ≡ i) ⊎ (k ≡ i + 16)
    → i < 8
    → j < 8
    → i ≢ j
    → irq_level (bit_or ctrl1 (2 ^ k)) j ≡ irq_level ctrl1 j
unfolding irq_level
irq_level-other ctrl1 k i j which hi hj apart = ground (
  arith,
  bit-bit_or ctrl1 (2 ^ k) j,
  bit-bit_or ctrl1 (2 ^ k) (j + 8),
  bit-bit_or ctrl1 (2 ^ k) (j + 16),
  bit-pow k j,
  bit-pow k (j + 8),
  bit-pow k (j + 16),
)

update_irq-LinesFollow :
    (s : Dma) (ctrl1 i : ℕ)
    → i < 8
    → ((j : ℕ) → j < 8 → i ≢ j → irq_level s.ctrl1 j ≡ irq_level ctrl1 j)
    → length s.irq ≡ 8
    → ((j : ℕ) → j < 8 → get_or s.irq j false ≡ irq_level ctrl1 j)
    → LinesFollow (update_irq i s)
unfolding update_irq
update_irq-LinesFollow s ctrl1 i h others size follows = (
  length-set s.irq i (irq_level s.ctrl1 i) ∙ size,
  λ j below. ground (
    arith,
    get_or-set s.irq i j (irq_level s.ctrl1 i) false,
    others j below,
    follows j below,
    size,
  ),
)

pub completion_irq-LinesFollow :
    (i : ℕ) (s : Dma) → i < 8 → LinesFollow s → LinesFollow (completion_irq i s)
unfolding completion_irq
completion_irq-LinesFollow i s h (size, follows) =
    update_irq-LinesFollow _ s.ctrl1 i h
      (λ j below apart. irq_level-other s.ctrl1 i i j (inl refl) h below apart) size follows

pub bus_error-LinesFollow : (i : ℕ) (s : Dma) → i < 8 → LinesFollow s → LinesFollow (bus_error i s)
unfolding bus_error
bus_error-LinesFollow i s h (size, follows) =
    update_irq-LinesFollow _ s.ctrl1 i h
      (λ j below apart. irq_level-other s.ctrl1 (i + 16) i j (inr refl) h below apart) size follows

-- What holds of the rest of the device while the loop over the lines runs, and of the lines that
-- it has passed.
abbrev Refreshed : Dma → ℕ → Dma → Type 0
Refreshed s n t =
    (t.ctrl1 ≡ s.ctrl1)
    × (length t.irq ≡ 8)
    × ((j : ℕ) → j < n → get_or t.irq j false ≡ irq_level s.ctrl1 j)

refresh_line :
    (s : Dma) (i : ℕ) (t : Dma) → i < 8 → Refreshed s i t → Refreshed s (suc i) (update_irq i t)
unfolding update_irq
refresh_line s i t h (same, size, done) = (
  same,
  length-set t.irq i (irq_level t.ctrl1 i) ∙ size,
  λ j below. ground (arith, get_or-set t.irq i j (irq_level t.ctrl1 i) false, done j, size, same),
)

-- After the loop over all lines every line follows, whatever it was before.
pub update_all_irqs-LinesFollow : (s : Dma) → length s.irq ≡ 8 → LinesFollow (update_all_irqs s)
unfolding update_all_irqs
update_all_irqs-LinesFollow s size =
    let (same, size', done) =
      for_below_inv (Refreshed s) 8 update_irq s (refl, size, λ j h. absurd (omega arith))
        (refresh_line s) in
    (size', λ j below. done j below ∙ ap (λ (c : ℕ). irq_level c j) (sym same))

-- ===== src/Dma/Host.antt =====
-- What hw/dma/stmp3770_dma.c calls and does not implement: the guest's memory and the functions
-- that the peripherals register for their channels.
use emu_gii.Prelude.{ℕ, Bool, Option, List, min}

-- The `int` that a handler returns. `negsuc n` is -(n + 1).
pub data ℤ : Type 0 where
  pos : ℕ → ℤ
  negsuc : ℕ → ℤ

-- What a handler returns for `STMP3770_DMA_EVENT_DATA_READ`, with the buffer that it filled.
pub record Filled (W : Type 0) : Type 0 where
  pub world : W
  pub handled : ℤ
  pub buffer : List ℕ

pub record Answer (W : Type 0) (A : Type 0) : Type 0 where
  pub world : W
  pub result : A

-- `W` is the state of the memory and of the peripherals. A read or write of guest memory that
-- does not return `MEMTX_OK` is `none`. `completion` says whether a completion callback calls
-- `stmp3770_dma_complete_channel_command` for its channel before it returns, as the last thing
-- that it does; the other callbacks do not call back into the DMA.
pub record Host (W : Type 0) : Type 0 where
  pub read_words : W → ℕ → ℕ → Option (List ℕ)
  pub read_bytes : W → ℕ → ℕ → Option (List ℕ)
  pub write_bytes : W → ℕ → List ℕ → Option W
  pub has_handler : ℕ → Bool
  pub sense_capable : ℕ → Bool
  pub has_completion : ℕ → Bool
  pub pio : W → ℕ → List ℕ → W
  pub data_read : W → ℕ → ℕ → Filled W
  pub data_write : W → ℕ → List ℕ → Answer W ℤ
  pub sense : W → ℕ → Answer W Bool
  pub completion : W → ℕ → Answer W Bool

-- `if (handled < 0) ..; if (handled > xfer_count) ..`
unfoldable pub clamp_count : ℤ → ℕ → ℕ
clamp_count (pos n) limit = min n limit
clamp_count (negsuc n) limit = 0

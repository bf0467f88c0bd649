-- ===== src/Dma/Command.antt =====
-- Loading a command descriptor and moving its data (hw/dma/stmp3770_dma.c).
use emu_gii.Prelude.{
  ℕ, ◌+◌, bit_and, bit_or, Bool, true, false, ◌&&◌, ◌||◌, none, some, List, [], ◌∷◌, ltb, ◌==◌,
  if◌then◌else◌, get_or, take,
}
use emu_gii.Bits.{bit}
use emu_gii.Reg.{u32, ◌<<<◌, ◌>>>◌}
use emu_gii.Dma.Host.{Host}
use emu_gii.Dma.State.{Channel, Dma, channel, put_channel}

-- The device and all that it talks to.
pub record Machine (W : Type 0) : Type 0 where
  pub dma : Dma
  pub world : W

-- The fields of a command word.
unfoldable pub cmd_command : ℕ → ℕ
cmd_command cmd = bit_and cmd 3

unfoldable pub cmd_words : ℕ → ℕ
cmd_words cmd = bit_and (cmd >>> 12) 0xf

unfoldable pub cmd_xfer_count : ℕ → ℕ
cmd_xfer_count cmd = bit_and (cmd >>> 16) 0xffff

abbrev pub cmd_chain : ℕ → Bool
cmd_chain cmd = bit cmd 2

abbrev pub cmd_irqoncmplt : ℕ → Bool
cmd_irqoncmplt cmd = bit cmd 3

abbrev pub cmd_semaphore : ℕ → Bool
cmd_semaphore cmd = bit cmd 6

abbrev pub cmd_wait4endcmd : ℕ → Bool
cmd_wait4endcmd cmd = bit cmd 7

abbrev pub is_transfer : ℕ → Bool
is_transfer command = command == 1 || command == 2

-- The words read replace the first words of the array.
abbrev pub overwrite : List ℕ → List ℕ → List ℕ
overwrite [] old = old
overwrite (x ∷ xs) [] = []
overwrite (x ∷ xs) (y ∷ ys) = x ∷ overwrite xs ys

-- The channel once the three descriptor words are read.
unfoldable pub fetched : Channel → List ℕ → Channel
unfolding cmd_words
fetched c words =
    let cmd = get_or words 1 0 in
    let n = cmd_words cmd in
    record c {
      loaded_nxtcmdar = get_or words 0 0;
      loaded_cmd = cmd;
      loaded_bar = get_or words 2 0;
      num_pio_words = if ltb 15 n then 15 else n;
    }

-- `CHn_DEBUG2` at the load: both byte counts of a data command.
unfoldable pub loaded_debug2 : ℕ → ℕ
unfolding cmd_command cmd_xfer_count
loaded_debug2 cmd =
    if is_transfer (cmd_command cmd)
    then bit_or (u32 (cmd_xfer_count cmd <<< 16)) (cmd_xfer_count cmd)
    else 0

-- The visible registers of a command whose descriptor and PIO words were read.
unfoldable pub reflected : Channel → ℕ → Channel
unfolding loaded_debug2
reflected c addr = record c {
  curcmdar = addr;
  cmd = c.loaded_cmd;
  bar = c.loaded_bar;
  wait4endcmd_pending = false;
  wait4endcmd_completion = false;
  debug2 = loaded_debug2 c.loaded_cmd;
}

pub record Loaded (W : Type 0) : Type 0 where
  pub success : Bool
  pub machine : Machine W

module _ {W : Type 0} (h : Host W) where
  put : Machine W → ℕ → Channel → Machine W
  put m i c = record m { dma = put_channel m.dma i c }

  -- From the visible registers to the end of `stmp3770_dma_load_command`.
  unfoldable pub finish_load : Machine W → ℕ → Channel → Loaded W
  unfolding put
  finish_load m i c =
      let shown = reflected c (channel m.dma i).nxtcmdar in
      let t = put m i shown in
      record {
        success = true;
        machine =
            if ltb 0 c.num_pio_words && h.has_handler i
            then record t { world = h.pio t.world i (take c.num_pio_words c.pio_words) }
            else t;
      }

  unfoldable pub load_pio : Machine W → ℕ → Channel → Loaded W
  unfolding finish_load put
  load_pio m i c =
      if ltb 0 c.num_pio_words
      then elim (h.read_words m.world ((channel m.dma i).nxtcmdar + 12) c.num_pio_words) [
        | none ↦ record { success = false; machine = put m i c }
        | some words ↦ finish_load m i (record c { pio_words = overwrite words c.pio_words })
      ]
      else finish_load m i c

  -- A null or unreadable descriptor leaves the channel alone; unreadable PIO words leave it with
  -- the descriptor loaded and its visible registers unchanged.
  unfoldable pub load_command : ℕ → Machine W → Loaded W
  unfolding fetched
  load_command i m =
      let c = channel m.dma i in
      if c.nxtcmdar == 0
      then record { success = false; machine = m }
      else elim (h.read_words m.world c.nxtcmdar 4) [
        | none ↦ record { success = false; machine = m }
        | some words ↦ load_pio m i (fetched c words)
      ]

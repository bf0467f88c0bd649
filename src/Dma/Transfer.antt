-- ===== src/Dma/Transfer.antt =====
-- The sense branch and the data movement of one command (hw/dma/stmp3770_dma.c).
use emu_gii.Prelude.{
  ℕ, ◌+◌, ◌-◌, ◌^◌, bit_or, Bool, true, false, not, ◌&&◌, none, some, ◌==◌, if◌then◌else◌,
  replicate,
}
use emu_gii.Reg.{u32, ◌<<<◌}
use emu_gii.Dma.Host.{Host, ℤ, pos, Filled, Answer, clamp_count}
use emu_gii.Dma.State.{Dma, channel, put_channel, update_irq}
use emu_gii.Dma.Command.{Machine, cmd_command, cmd_xfer_count, is_transfer}

-- What the data movement leaves: the new world, the bytes that the peripheral took or gave, and
-- whether the memory access succeeded.
pub record Moved (W : Type 0) : Type 0 where
  pub world : W
  pub consumed : ℕ
  pub transfer_ok : Bool

-- The `xfer_count` of a data command: 0 stands for 64 KiB.
unfoldable pub xfer_length : ℕ → ℕ
xfer_length cmd = if cmd_xfer_count cmd == 0 then 2 ^ 16 else cmd_xfer_count cmd

-- The command after the sense branch was taken, and its choice of the next descriptor.
pub record Sensed (W : Type 0) : Type 0 where
  pub machine : Machine W
  pub command : ℕ
  pub sense_branch : Bool

-- After the transfer CHn_DEBUG2 has the bytes left on the APB side and on the AHB side.
unfoldable pub remaining_debug2 : ℕ → ℕ → Bool → ℕ
remaining_debug2 count consumed ok =
    bit_or (u32 ((count - consumed) <<< 16)) (if ok then 0 else count)

-- A failed memory access raises the channel's bus error.
unfoldable pub bus_error : ℕ → Dma → Dma
bus_error i s = update_irq i (record s { ctrl1 = bit_or s.ctrl1 (2 ^ (i + 16)) })

module _ {W : Type 0} (h : Host W) where
  unfoldable pub sense_step : ℕ → Machine W → Sensed W
  sense_step i m =
      let c = channel m.dma i in
      let command = cmd_command c.loaded_cmd in
      if command == 3 && not m.dma.is_apbx
      then (if h.sense_capable i
          then (let answer = h.sense m.world i in
              let target = if answer.result then c.loaded_bar else c.loaded_nxtcmdar in
              record {
                machine = record {
                  dma = put_channel m.dma i (record c { nxtcmdar = target });
                  world = answer.world;
                };
                command = 0;
                sense_branch = true;
              })
          else record { machine = m; command = 0; sense_branch = false })
      else record { machine = m; command = command; sense_branch = false }

  -- `COMMAND_DMA_WRITE`: the peripheral fills a zeroed buffer, which goes to memory.
  unfoldable pub move_to_memory : ℕ → W → ℕ → ℕ → Moved W
  move_to_memory i w bar count =
      let filled : Filled W =
        if h.has_handler i
        then h.data_read w i count
        else record { world = w; handled = pos 0; buffer = replicate count 0 } in
      let consumed = clamp_count filled.handled count in
      elim (h.write_bytes filled.world bar filled.buffer) [
        | none ↦ record { world = filled.world; consumed = consumed; transfer_ok = false }
        | some w' ↦ record { world = w'; consumed = consumed; transfer_ok = true }
      ]

  -- `COMMAND_DMA_READ`: the buffer is read from memory and given to the peripheral.
  unfoldable pub move_from_memory : ℕ → W → ℕ → ℕ → Moved W
  move_from_memory i w bar count = elim (h.read_bytes w bar count) [
    | none ↦ record { world = w; consumed = 0; transfer_ok = false }
    | some bytes ↦
        let answer : Answer W ℤ =
          if h.has_handler i
          then h.data_write w i bytes
          else record { world = w; result = pos 0 } in
        record {
          world = answer.world;
          consumed = clamp_count answer.result count;
          transfer_ok = true;
        }
  ]

  -- `bar` and the length are those of the loaded command.
  unfoldable pub transfer : ℕ → ℕ → Machine W → Machine W
  unfolding xfer_length remaining_debug2 bus_error
  transfer i command m =
      let c = channel m.dma i in
      let count = xfer_length c.loaded_cmd in
      let moved =
        if command == 1
        then move_to_memory i m.world c.loaded_bar count
        else move_from_memory i m.world c.loaded_bar count in
      let left = remaining_debug2 count moved.consumed moved.transfer_ok in
      let s = put_channel m.dma i (record c { debug2 = left }) in
      if is_transfer command
      then record { dma = if moved.transfer_ok then s else bus_error i s; world = moved.world }
      else m

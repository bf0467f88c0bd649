-- ===== src/Dri/Regs.antt =====
-- The registers of hw/misc/stmp3770_dri.c, their handlers and the DMA handler.
use emu_gii.Prelude.{ℕ, ◌^◌, bit_and, bit_or, bit_xor, Bool, not, ◌||◌, leb, ◌==◌, if◌then◌else◌}
use emu_gii.Bits.{bit}
use emu_gii.Reg.{u32, not32, ◌>>>◌, Alias, alias_exact, base_of}

pub record Dri : Type 0 where
  pub ctrl : ℕ
  pub timing : ℕ
  pub debug0 : ℕ
  pub debug1 : ℕ
  pub irq : Bool

abbrev pub dri_ctrl_writable_mask : ℕ
dri_ctrl_writable_mask = 0xe61f_8e0f

abbrev pub dri_ctrl_reset : ℕ
dri_ctrl_reset = 0xc001_0000

abbrev pub ctrl_irq_status_bits : ℕ
ctrl_irq_status_bits = 0xE

abbrev pub ctrl_irq_enable_bits : ℕ
ctrl_irq_enable_bits = 0xE00

abbrev pub timing_writable_mask : ℕ
timing_writable_mask = 0x000f_00ff

abbrev pub debug0_writable_mask : ℕ
debug0_writable_mask = 0x0ffc_0000

abbrev pub debug1_writable_mask : ℕ
debug1_writable_mask = 0xf800_0000

-- `status & enable`
abbrev pub irq_summary : ℕ → ℕ
irq_summary ctrl =
    bit_and (bit_and ctrl ctrl_irq_status_bits) (bit_and ctrl ctrl_irq_enable_bits >>> 8)

unfoldable pub update_irq : Dri → Dri
update_irq s = record s { irq = not (irq_summary s.ctrl == 0) }

unfoldable pub reset_registers : Dri → Dri
unfolding update_irq
reset_registers s =
    update_irq (record s { ctrl = dri_ctrl_reset; timing = 0x0008_0010; debug0 = 0; debug1 = 0 })

-- The local `writable` of `dri_apply_sct`.
unfoldable pub writable_bits : ℕ → ℕ → ℕ → Alias → ℕ
writable_bits old value mask Alias.plain = bit_and value mask
writable_bits old value mask Alias.set = bit_or (bit_and old mask) (bit_and value mask)
writable_bits old value mask Alias.clr = bit_and (bit_and old mask) (not32 (bit_and value mask))
writable_bits old value mask Alias.tog = bit_xor (bit_and old mask) (bit_and value mask)

unfoldable pub dri_apply_sct : ℕ → ℕ → ℕ → Alias → ℕ
unfolding writable_bits
dri_apply_sct old value mask sct =
    bit_or (bit_and old (not32 mask)) (writable_bits old value mask sct)

-- The aliases read as zero.
unfoldable pub read : Dri → ℕ → ℕ → ℕ
read s offset size =
    if not (size == 4) || not (bit_and offset 0xF == 0)
    then 0
    else if base_of offset == 0x000
    then s.ctrl
    else if base_of offset == 0x010
    then s.timing
    else if base_of offset == 0x020
    then bit_or (2 ^ 31) (irq_summary s.ctrl)
    else if base_of offset == 0x040
    then bit_and s.debug0 debug0_writable_mask
    else if base_of offset == 0x050
    then bit_and s.debug1 debug1_writable_mask
    else 0

-- `s->ctrl` before SFTRST is looked at. The offset's low bits 0 and 12 keep the status bits.
unfoldable pub written_ctrl : ℕ → ℕ → ℕ → ℕ
unfolding dri_apply_sct
written_ctrl old offset val =
    let low = bit_and offset 0xF in
    let stored = dri_apply_sct old val dri_ctrl_writable_mask (alias_exact offset) in
    if low == 0 || low == 12
    then bit_or (bit_and stored (not32 ctrl_irq_status_bits)) (bit_and old ctrl_irq_status_bits)
    else stored

unfoldable pub write_ctrl : Dri → ℕ → ℕ → Dri
unfolding written_ctrl reset_registers update_irq
write_ctrl s offset val =
    let stored = record s { ctrl = written_ctrl s.ctrl offset val } in
    if bit stored.ctrl 31 then reset_registers stored else update_irq stored

unfoldable pub write : Dri → ℕ → ℕ → ℕ → Dri
unfolding write_ctrl dri_apply_sct
write s offset value size =
    let val = u32 value in
    if not (size == 4)
    then s
    else if base_of offset == 0x000
    then write_ctrl s offset val
    else if base_of offset == 0x010
    then (if bit_and offset 0xF == 0
        then record s { timing = bit_and val timing_writable_mask }
        else s)
    else if base_of offset == 0x040
    then record s { debug0 = dri_apply_sct s.debug0 val debug0_writable_mask (alias_exact offset) }
    else if base_of offset == 0x050
    then record s { debug1 = dri_apply_sct s.debug1 val debug1_writable_mask (alias_exact offset) }
    else s

-- What the DMA engine tells the device: PIO words, of which the first is `pio[0]`, and data to read
-- or write, by their lengths.
pub data DmaEvent : Type 0 where
  pio : ℕ → ℕ → DmaEvent
  data_read data_write : ℕ → DmaEvent

pub record Handled : Type 0 where
  pub dri : Dri
  pub result : ℕ

unfoldable pub dma_handler : Dri → DmaEvent → Handled
unfolding write
dma_handler s (DmaEvent.pio len word) = record {
  dri = if leb 4 len then write s 0x000 word 4 else s;
  result = len;
}
dma_handler s (DmaEvent.data_read len) = record { dri = s; result = 0 }
dma_handler s (DmaEvent.data_write len) = record { dri = s; result = len }

-- ===== src/Gpmi/Fifo.antt =====
-- The data FIFO of hw/block/stmp3770_gpmi.c, and the accesses of the DATA register.
use emu_gii.Prelude.{
  ℕ, ◌+◌, ◌-◌, ◌*◌, ◌%◌, ◌^◌, bit_and, bit_or, Bool, true, false, ◌&&◌, ◌==◌, leb, if◌then◌else◌,
  for_below, memcpy, put_byte, shift_by,
}
use emu_gii.Bits.{bit}
use emu_gii.Reg.{u32, not32, ◌<<<◌, ◌>>>◌}

-- `fifo_count`, `data_fifo` and `stat` of the device.
pub record Fifo : Type 0 where
  pub fifo_count : ℕ
  pub data_fifo : ℕ → ℕ
  pub stat : ℕ

-- `ARRAY_SIZE(s->data_fifo)`
abbrev pub fifo_size : ℕ
fifo_size = 64

abbrev pub stat_fifo_empty : ℕ
stat_fifo_empty = 2 ^ 5

abbrev pub stat_fifo_full : ℕ
stat_fifo_full = 2 ^ 4

unfoldable pub update_fifo_status : Fifo → Fifo
update_fifo_status f =
    let cleared = bit_and f.stat (not32 (bit_or stat_fifo_empty stat_fifo_full)) in
    let empty = if f.fifo_count == 0 then bit_or cleared stat_fifo_empty else cleared in
    record f { stat = if f.fifo_count == fifo_size then bit_or empty stat_fifo_full else empty }

unfoldable pub fifo_clear : Fifo → Fifo
unfolding update_fifo_status
fifo_clear f = update_fifo_status (record f { fifo_count = 0; data_fifo = λ _. 0 })

-- The FIFO afterwards, and whether the byte was taken.
pub record Pushed : Type 0 where
  pub fifo : Fifo
  pub success : Bool

unfoldable pub fifo_push_byte : Fifo → ℕ → Pushed
unfolding update_fifo_status
fifo_push_byte f value =
    if f.fifo_count == fifo_size
    then record { fifo = update_fifo_status f; success = false }
    else record {
      fifo = update_fifo_status (record f {
        data_fifo = put_byte f.data_fifo f.fifo_count value;
        fifo_count = f.fifo_count + 1;
      });
      success = true;
    }

-- The FIFO afterwards, whether there was a byte, and `*value`, which is as before if there was none.
pub record Popped : Type 0 where
  pub fifo : Fifo
  pub success : Bool
  pub value : ℕ

unfoldable pub fifo_pop_byte : Fifo → ℕ → Popped
unfolding update_fifo_status
fifo_pop_byte f value =
    if f.fifo_count == 0
    then record { fifo = update_fifo_status f; success = false; value = value }
    else record {
      fifo = update_fifo_status (record f {
        data_fifo = memcpy f.data_fifo 0 (shift_by 1 f.data_fifo) (f.fifo_count - 1);
        fifo_count = f.fifo_count - 1;
      });
      success = true;
      value = f.data_fifo 0;
    }

-- WORD_LENGTH of `ctrl0`: bytes in any access, or half-words only.
unfoldable pub data_access_is_valid : ℕ → ℕ → Bool
data_access_is_valid ctrl0 size = if bit ctrl0 23 then leb 1 size && leb size 4 else size == 2

-- What a read of DATA returns, and the FIFO after it.
pub record DataRead : Type 0 where
  pub fifo : Fifo
  pub value : ℕ

-- One round of the loop of `gpmi_data_read`: a byte, or 0xFF if there is none.
unfoldable pub read_byte : ℕ → DataRead → DataRead
unfolding fifo_pop_byte
read_byte i r =
    let p = fifo_pop_byte r.fifo 0xFF in
    record { fifo = p.fifo; value = bit_or r.value (u32 (p.value <<< (i * 8))) }

unfoldable pub data_read : Fifo → ℕ → DataRead
unfolding read_byte for_below
data_read f size = for_below size read_byte (record { fifo = f; value = 0 })

unfoldable pub data_write : Fifo → ℕ → ℕ → Fifo
unfolding fifo_push_byte for_below
data_write f value size =
    for_below size (λ i g. (fifo_push_byte g (value >>> (i * 8) % 256)).fifo) f

-- ===== src/Power/Regs.antt =====
-- The registers of the power supply control (hw/misc/stmp3770_power.c): 18 words, 16 bytes apart.
use emu_gii.Prelude.{
  ℕ, ◌*◌, ◌/◌, bit_and, bit_or, Bool, List, leb, ◌==◌, if◌then◌else◌, get_or, set, replicate,
}
use emu_gii.Reg.{u32, not32, Alias, apply_sct, alias_exact, base_of}

pub record Power : Type 0 where
  pub regs : List ℕ

abbrev pub num_slots : ℕ
num_slots = 18

abbrev pub reset_writable_mask : ℕ
reset_writable_mask = 3

-- `slot_from_offset`
abbrev pub slot_from_offset : ℕ → ℕ
slot_from_offset offset = offset / 0x10

-- `(val & RESET_UNLOCK_MASK) == RESET_UNLOCK_VALUE`
unfoldable pub unlocks : ℕ → Bool
unlocks val = bit_and val 0xffff_0000 == 0x3e77_0000

-- The read handler does not look at the size of the access.
unfoldable pub read : Power → ℕ → ℕ
read s offset =
    if leb (num_slots * 0x10) offset
    then 0
    else if base_of offset == 0x110
    then 0x0200_0000
    else get_or s.regs (slot_from_offset (base_of offset)) 0

-- RESET takes a value with the key in its upper half, and has no TOG alias.
unfoldable pub write_reset : Alias → ℕ → ℕ → ℕ
write_reset Alias.plain old val = if unlocks val then bit_and val reset_writable_mask else old
write_reset Alias.set old val =
    if unlocks val then bit_or old (bit_and val reset_writable_mask) else old
write_reset Alias.clr old val =
    if unlocks val then bit_and old (not32 (bit_and val reset_writable_mask)) else old
write_reset Alias.tog old val = old

abbrev pub put_slot : Power → ℕ → ℕ → Power
put_slot s slot val = record { regs = set s.regs slot val }

-- STS is written like every other register. The size is not looked at here either.
unfoldable pub write : Power → ℕ → ℕ → Power
unfolding write_reset
write s offset value =
    let val = u32 value in
    let slot = slot_from_offset (base_of offset) in
    let old = get_or s.regs slot 0 in
    if leb (num_slots * 0x10) offset
    then s
    else if base_of offset == 0x110
    then s
    else if base_of offset == 0x0E0
    then put_slot s slot (write_reset (alias_exact offset) old val)
    else put_slot s slot (apply_sct (alias_exact offset) old val)

-- The registers that a reset sets, by slot; the others are zero.
unfoldable pub reset : Power → Power
reset s =
    let zeros : Power = record { regs = replicate num_slots 0 } in
    let ctrl = put_slot zeros 0x0 0x4004_0024 in
    let v5ctrl = put_slot ctrl 0x1 0x100 in
    let charge = put_slot v5ctrl 0x3 0x1_0000 in
    let vddd = put_slot charge 0x4 0x0031_0710 in
    let vdda = put_slot vddd 0x5 0x170A in
    let vddio = put_slot vdda 0x6 0x170C in
    let limits = put_slot vddio 0x9 0x0004_0C5F in
    let loopctrl = put_slot limits 0xA 0x21 in
    let sts = put_slot loopctrl 0xB 0x8000_0000 in
    let speed = put_slot sts 0xC 0 in put_slot speed 0xD 0x20

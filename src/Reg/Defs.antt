-- ===== src/Reg/Defs.antt =====
-- The register conventions that the devices share: 32-bit words, flags, the SET, CLR and TOG
-- aliases of a register, and accesses narrower than a word. The devices repeat this code; the
-- functions are named after the copy in hw/dma/stmp3770_dma.c.
use emu_gii.Prelude.{
  ℕ, ◌-◌, ◌*◌, ◌/◌, ◌%◌, ◌^◌, bit_and, bit_or, bit_xor, Bool, not, ◌==◌, leb, if◌then◌else◌,
}
use emu_gii.Bits.{complement}

abbrev pub u32 : ℕ → ℕ
u32 n = n % 2 ^ 32

infixl 75 ◌<<<◌ ◌>>>◌
-- A shift on mathematical numbers; the callers cut the result to its width by `u32`.
abbrev pub ◌<<<◌ : ℕ → ℕ → ℕ
x <<< k = x * 2 ^ k

abbrev pub ◌>>>◌ : ℕ → ℕ → ℕ
x >>> k = x / 2 ^ k

-- `~x` of a uint32_t.
abbrev pub not32 : ℕ → ℕ
not32 x = complement 32 x

-- `(x & mask) != 0`
unfoldable pub has : ℕ → ℕ → Bool
has x mask = not (bit_and x mask == 0)

-- How an address names a register: itself or one of its aliases at +4, +8 and +12.
pub data Alias : Type 0 where
  plain set clr tog : Alias

unfoldable pub apply_sct : Alias → ℕ → ℕ → ℕ
apply_sct Alias.plain reg value = value
apply_sct Alias.set reg value = bit_or reg value
apply_sct Alias.clr reg value = bit_and reg (not32 value)
apply_sct Alias.tog reg value = bit_xor reg value

-- `is_set`, `is_clr` and `is_tog` compare the low four bits of the offset with 4, 8 and 12.
unfoldable pub alias_exact : ℕ → Alias
alias_exact offset =
    let low = bit_and offset 0xF in
    if low == 4
    then Alias.set
    else if low == 8
    then Alias.clr
    else if low == 12
    then Alias.tog
    else Alias.plain

-- `(offset >> 2) & 3`: every byte of an alias counts as the alias.
unfoldable pub alias_field : ℕ → Alias
alias_field offset =
    let sct = bit_and (offset >>> 2) 3 in
    if sct == 1
    then Alias.set
    else if sct == 2
    then Alias.clr
    else if sct == 3
    then Alias.tog
    else Alias.plain

-- `offset & ~0xF`, of an offset of any width
abbrev pub base_of : ℕ → ℕ
base_of offset = offset - offset % 16

-- `(size >= 4) ? 0xFFFFFFFF : (1u << (size * 8)) - 1`
unfoldable pub size_mask : ℕ → ℕ
size_mask size = if leb 4 size then 0xffff_ffff else 1 <<< (size * 8) - 1

abbrev pub byte_shift : ℕ → ℕ
byte_shift offset = bit_and offset 3 * 8

unfoldable pub read_subword : ℕ → ℕ → ℕ → ℕ
unfolding size_mask
read_subword value offset size = bit_and (value >>> byte_shift offset) (size_mask size)

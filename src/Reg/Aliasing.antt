-- ===== src/Reg/Aliasing.antt =====
-- What a write through an alias does to a register, bit by bit.
use emu_gii.Prelude.{ℕ, ◌<◌, ◌^◌, Bool, not, ◌&&◌, ◌||◌, xor, ◌≡◌, refl, ◌∙◌, ap, arith}
use emu_gii.Bits.{
  bit, bit-bit_or, bit-bit_and, bit-bit_xor, bit-complement, bit_or-lt, bit_xor-lt, bit_and-le_left,
  bit_and-pow,
}
use emu_gii.Reg.Defs.{has, Alias, apply_sct, not32}

-- The documented meaning of the aliases for one bit of the register and of the value.
abbrev pub sct_bit : Alias → Bool → Bool → Bool
sct_bit Alias.plain old val = val
sct_bit Alias.set old val = old || val
sct_bit Alias.clr old val = old && not val
sct_bit Alias.tog old val = xor old val

-- The 32 bits of what `apply_sct` computes, before a device cuts them to what it lets be written.
pub bit-apply_sct :
    (alias : Alias) (reg val k : ℕ)
    → k < 32
    → bit (apply_sct alias reg val) k ≡ sct_bit alias (bit reg k) (bit val k)
unfolding apply_sct
bit-apply_sct Alias.plain reg val k h = refl
bit-apply_sct Alias.set reg val k h = bit-bit_or reg val k
bit-apply_sct Alias.clr reg val k h =
    bit-bit_and reg (not32 val) k ∙ ap (λ b. bit reg k && b) (bit-complement 32 val k h)
bit-apply_sct Alias.tog reg val k h = bit-bit_xor reg val k

pub apply_sct-lt :
    (alias : Alias) (reg val : ℕ) → reg < 2 ^ 32 → val < 2 ^ 32 → apply_sct alias reg val < 2 ^ 32
unfolding apply_sct
apply_sct-lt Alias.plain reg val p q = q
apply_sct-lt Alias.set reg val p q = bit_or-lt 32 reg val p q
apply_sct-lt Alias.clr reg val p q = omega (arith, bit_and-le_left reg (not32 val))
apply_sct-lt Alias.tog reg val p q = bit_xor-lt 32 reg val p q

-- A test by a one-bit mask.
pub has-bit : (x k : ℕ) → has x (2 ^ k) ≡ bit x k
unfolding has
has-bit x k = ground (arith, bit_and-pow x k)

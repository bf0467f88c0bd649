-- ===== src/Bits/Masks.antt =====
-- A register that was cut by a mask.
use emu_gii.Prelude.{ℕ, ◌^◌, ◌<◌, ◌≡◌, bit_and, arith}
use emu_gii.Bits.Digit.{bit-bit_and, bit_ext}
use emu_gii.Bits.Width.{bit_and-lt}

-- `x` has no bit outside `mask`.
abbrev pub IsMasked : ℕ → ℕ → Type 0
IsMasked mask x = bit_and x mask ≡ x

pub bit_and-IsMasked : (w x mask : ℕ) → mask < 2 ^ w → IsMasked mask (bit_and x mask)
bit_and-IsMasked w x mask h =
    bit_ext w (bit_and (bit_and x mask) mask) (bit_and x mask)
      (bit_and-lt w (bit_and x mask) mask h) (bit_and-lt w x mask h)
      (λ k below. ground (arith, bit-bit_and (bit_and x mask) mask k, bit-bit_and x mask k))

pub IsMasked-lt : (w x mask : ℕ) → mask < 2 ^ w → IsMasked mask x → x < 2 ^ w
IsMasked-lt w x mask h m = omega (arith, bit_and-lt w x mask h)

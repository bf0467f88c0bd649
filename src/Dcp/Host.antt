-- ===== src/Dcp/Host.antt =====
-- What hw/misc/stmp3770_dcp.c calls and does not implement: the loads of QEMU. A C array of bytes,
-- or a pointer into one, is the function from the index to the byte.
use emu_gii.Prelude.{ℕ, ◌+◌, ◌<◌, ◌≡◌}

-- `ldl_be_p (data + i)` reads the four bytes from `i` on.
pub record BigEndian : Type 0 where
  pub ldl_be_p : (ℕ → ℕ) → ℕ → ℕ
  pub ldl_be_p_cong :
      (f g : ℕ → ℕ) (i : ℕ)
      → ((k : ℕ) → k < 4 → f (i + k) ≡ g (i + k))
      → ldl_be_p f i ≡ ldl_be_p g i

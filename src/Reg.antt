-- ===== src/Reg.antt =====
-- The register conventions shared by the devices, and their laws.
mod Defs
mod Aliasing
mod Subword
unfoldable pub use Defs.*
pub use Aliasing.{sct_bit, bit-apply_sct, apply_sct-lt, has-bit}
pub use Subword.*

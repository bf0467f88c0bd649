-- ===== src/Bits.antt =====
-- The bitwise operations of C at variables: what each does to the bit at a position, bounds by
-- powers of two, and masks.
mod Step
mod Digit
mod Width
mod Shift
mod Masks
mod Disjoint
unfoldable pub use Digit.*
unfoldable pub use Width.*
pub use Shift.*
pub use Masks.*
pub use Disjoint.*
pub use Step.{zero-bit_or}

-- ===== src/Dma.antt =====
-- The APBH and APBX DMA engines, hw/dma/stmp3770_dma.c.
pub mod State
pub mod Host
pub mod Command
pub mod Transfer
pub mod Run
pub mod Bus
pub mod Lines
pub mod Invariant
pub mod Steps
pub mod Writable
pub mod Resets
pub mod Writes
pub mod Kept
pub mod Loads
pub mod Fuel
pub mod Total
pub mod Deferred
pub mod Endless

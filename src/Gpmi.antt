-- ===== src/Gpmi.antt =====
-- The general purpose media interface and its NAND flash (hw/block/stmp3770_gpmi.c).
pub mod Nand
pub mod Fifo
pub mod Queue
pub mod Pages
pub mod Flash
pub mod Erase
pub mod Chip
pub mod Protocol
pub mod Fill
pub mod Geometry
pub mod RoundTrip

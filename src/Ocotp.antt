-- ===== src/Ocotp.antt =====
-- The one-time programmable memory (hw/misc/stmp3770_ocotp.c).
pub mod Fuses
pub mod Bus
pub mod Steps
pub mod Blown
pub mod Aliases

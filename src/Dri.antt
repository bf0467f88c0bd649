-- ===== src/Dri.antt =====
-- The digital radio interface (hw/misc/stmp3770_dri.c).
pub mod Regs
pub mod Status

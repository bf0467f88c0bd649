-- ===== src/Power.antt =====
-- The power supply control (hw/misc/stmp3770_power.c).
pub mod Regs
pub mod Access

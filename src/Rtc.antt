-- ===== src/Rtc.antt =====
-- The real-time clock (hw/rtc/stmp3770_rtc.c).
pub mod State
pub mod Copy
pub mod Tick
pub mod Bus
pub mod Lock
pub mod Forever
pub mod Clock
pub mod Words
pub mod Marks

-- ===== src/Rtc/Words.antt =====
-- What a write of a whole word does to a register (hw/rtc/stmp3770_rtc.c).

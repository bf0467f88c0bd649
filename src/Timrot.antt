-- ===== src/Timrot.antt =====
-- The timers and the rotary decoder (hw/timer/stmp3770_timer.c).
pub mod State
pub mod Rotary
pub mod Count
pub mod Bus
pub mod Invariant
pub mod Keeps
pub mod Written
pub mod Machine
pub mod Debounce
pub mod Turns
pub mod Phases
pub mod Measure

-- ===== src/Icoll.antt =====
-- The interrupt collector, hw/intc/stmp3770_icoll.c.
pub mod State
pub mod Arbiter
pub mod Update
pub mod Control
pub mod Bus
pub mod Priority
pub mod Requests
pub mod Inputs
pub mod Lines
pub mod Branches
pub mod Invariant
pub mod Frame
pub mod Levels
pub mod Preserve
pub mod Accesses
pub mod Machine
pub mod Settle
pub mod Nesting
pub mod Service
pub mod Merge
pub mod Narrow
pub mod Words

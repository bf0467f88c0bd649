-- ===== src/Tests.antt =====
-- The theorems at concrete states of the devices.
mod Registers
mod Collector
mod Engine
mod Chains
mod Supply
mod Clock
mod Fuses
mod Coprocessor
mod Flash
mod Knob
mod Radio

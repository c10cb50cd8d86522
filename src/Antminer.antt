-- ===== src/Antminer.antt =====
-- The Antminer S9 backend, open/bosminer/bosminer-am1-s9/src.
pub mod Registry
pub mod Address
pub mod Monitor
pub mod Counters
pub mod Pll
pub mod Receive
pub mod Registers

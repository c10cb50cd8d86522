-- ===== src/Stratum.antt =====
-- The Stratum V2 protocol (open/protocols/stratum/src/v2).
pub mod Serialization
pub mod Types
pub mod Framing
pub mod Messages

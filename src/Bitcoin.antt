-- ===== src/Bitcoin.antt =====
-- Bitcoin data types, open/coins/bitcoin/src/lib.rs.
pub mod Header
pub mod Target

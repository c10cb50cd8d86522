-- ===== src/Work.antt =====
-- The generation of work, open/bosminer/bosminer/src/work.
pub mod Engine
pub mod Rolling

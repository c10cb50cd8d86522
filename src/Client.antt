-- ===== src/Client.antt =====
-- The clients of bosminer, open/bosminer/bosminer/src/client.
pub mod Scheduler

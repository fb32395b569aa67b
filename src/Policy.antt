-- ===== src/Policy.antt =====
-- policy/: engines that wrap another engine.
pub mod Retry

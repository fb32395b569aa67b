-- ===== src/Tooling.antt =====
-- tooling/
pub mod Registry

-- ===== src/Provider.antt =====
-- examples/coding-agent/server/internal/modelprovider/
pub mod Preflight

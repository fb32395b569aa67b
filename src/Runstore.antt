-- ===== src/Runstore.antt =====
-- Package runstore.
pub mod Inmem

-- ===== src/Eventing.antt =====
-- Package eventing.
pub mod Inmem

-- ===== src/Cps.antt =====
-- The programming (CPS) protocol of src/cps.
pub mod Frame
pub mod Handshake
pub mod Session

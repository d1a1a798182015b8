-- ===== src/App/Ax25.antt =====
-- src/app/ax25/: position reports over packet radio.
pub mod Frame
pub mod AprsPacket

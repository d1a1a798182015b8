-- ===== src/Tests.antt =====
-- The theorems of the other modules, applied to concrete inputs.
mod Records
mod Storage
mod Keys
mod Flash
mod Session
mod Packet
mod Scan
mod Fixtures
mod Radio
mod Sides

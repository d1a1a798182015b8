-- ===== src/App/Satellite.antt =====
-- src/app/satellite: passes of satellites.
pub mod Time

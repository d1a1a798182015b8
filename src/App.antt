-- ===== src/App.antt =====
-- src/app/: the application behind the keys and the display.
pub mod NameEdit
pub mod Input
pub mod Convert
pub mod Ax25
pub mod Satellite
pub mod Scan
pub mod Meters
pub mod Side
pub mod State
pub mod Transmit
pub mod SideOps
pub mod Standby
pub mod Search

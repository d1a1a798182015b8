-- ===== src/Device.antt =====
-- src/device/: what stands between the board and the application.
pub mod Keypad
pub mod BandLock
pub mod Storage
pub mod Radio

-- ===== src/FlashMap.antt =====
-- src/flash_map.rs: the records of the external flash and their byte layouts.
pub mod Freq
pub mod Channel
pub mod Contact
pub mod Vfo
pub mod Sat
pub mod Settings

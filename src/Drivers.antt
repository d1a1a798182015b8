-- ===== src/Drivers.antt =====
-- The chip drivers of src/drivers.
pub mod Fd6818
pub mod NorFlash

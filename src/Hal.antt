-- ===== src/Hal.antt =====
-- The hardware abstraction of src/hal: what is pure state in it.
pub mod WearLeveled
pub mod Debounce
pub mod Scheduler
pub mod Uart

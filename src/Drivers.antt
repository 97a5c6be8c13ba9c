-- ===== src/Drivers.antt =====
-- The drivers: kernel/drivers/.
pub mod Ata
pub mod Keyboard

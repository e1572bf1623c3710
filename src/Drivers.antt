-- ===== src/Drivers.antt =====
-- The device drivers: src/drivers/pic.c and src/drivers/pit.c in `Timer`, src/drivers/serial.c in `Serial`.
-- A driver is the sequence of the bytes that it writes to ports; what it reads from ports is an argument.
pub mod Timer
pub mod Setup
pub mod Serial
pub mod Polling
pub mod Tests

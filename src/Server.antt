-- ===== src/Server.antt =====
-- The server's side of modbus.c.
pub mod IoStatus
pub mod Mapping
pub mod Allocation
pub mod Serve
pub mod Reply
pub mod Loops
pub mod Header

-- ===== src/Hci.antt =====
-- Passive scanning over a raw HCI socket.
--
-- bluepy/bluepy-helper.c, lines 1657 to 1881.
pub mod Monitor
pub mod Discover
pub mod Lines
pub mod Bounds

-- ===== src/Gatt.antt =====
-- The GATT client: commands, and the callbacks that report their results.
--
-- bluepy/bluepy-helper.c, lines 630 to 802 and 869 to 1248.
pub mod Handle
pub mod Reports
pub mod Lines
pub mod Discovery
pub mod Read
pub mod Write
pub mod Security
pub mod Mtu
pub mod Exchange
pub mod Rows

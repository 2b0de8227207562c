-- ===== src/Client.antt =====
-- The program at the other end of the pipe: the classes of the client.
--
-- bluepy/btle.py, lines 88 to 878. A line is a list of ASCII codes.
pub mod Parse
pub mod Wait
pub mod Seen
pub mod Lookup
pub mod Peripheral
pub mod Mtu
pub mod Uuid
pub mod Talk
pub mod Scan
pub mod Scanner
pub mod Objects

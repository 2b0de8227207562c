-- ===== src/Mgmt.antt =====
-- The management interface: controller modes, pairing, scanning, out-of-band data, its events.
--
-- bluepy/bluepy-helper.c, lines 1250 to 1652 and 2008 to 2102.
pub mod Request
pub mod Modes
pub mod Pairing
pub mod Scan
pub mod Oob
pub mod Notices

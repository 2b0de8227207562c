-- ===== src/Att.antt =====
-- What the process answers to PDUs of the peer.
--
-- bluepy/bluepy-helper.c, lines 286 to 551.
pub mod Events
pub mod Server
pub mod Answers

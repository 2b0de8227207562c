-- ===== src/Progress.antt =====
-- That the process goes on: each function returns, and each command and callback is answered.
pub mod Runs
pub mod Replies
pub mod Protocol
pub mod Gatt
pub mod Mgmt
pub mod Hci
pub mod Connection
pub mod Att
pub mod Commands
pub mod Callbacks
pub mod Loop

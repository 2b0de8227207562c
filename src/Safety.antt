-- ===== src/Safety.antt =====
-- What holds of the process between two callbacks, and that every callback keeps it.
pub mod Invariant
pub mod Basics
pub mod Rules
pub mod Gatt
pub mod Reports
pub mod Att
pub mod Mgmt
pub mod Hci
pub mod Connection
pub mod Loop
pub mod Run

-- ===== src/Bridge.antt =====
-- crates/rdesk_bridge/src: the functions that the Flutter client calls.
pub mod Registry
pub mod Controls
pub mod Connection
pub mod Settings
pub mod Transfers

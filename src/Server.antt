-- ===== src/Server.antt =====
-- The relay server: crates/rdesk_server/src/main.rs.
pub mod State
pub mod Sessions
pub mod Screen
pub mod Commands
pub mod Previews
pub mod Files
pub mod Accounts
pub mod Cleanup
pub mod Sockets

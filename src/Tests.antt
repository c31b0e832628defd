-- ===== src/Tests.antt =====
-- Runs of the theorems at concrete states.
pub mod Data
pub mod Wake
pub mod Server
pub mod Accounts
pub mod Relay
pub mod Crypto
pub mod Transport
pub mod Core
pub mod Disks
pub mod Client

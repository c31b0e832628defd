-- ===== src/Wake.antt =====
-- The remote wake-up service: crates/rdesk_server/src/wake.
pub mod Model
pub mod Mac
pub mod Devices
pub mod Requests
pub mod Store
pub mod Callers
pub mod Routes
pub mod Sweep
pub mod Views
pub mod Polling
pub mod Pairing
pub mod Validity

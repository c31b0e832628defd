-- ===== src/Common.antt =====
-- crates/rdesk_common: the framing of messages on a byte stream and what it promises, the
-- identifier of the device, the configuration, passwords and the platform.
pub mod Codec
pub mod Disk
pub mod DeviceId
pub mod Config
pub mod Password
pub mod Platform

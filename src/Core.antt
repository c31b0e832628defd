-- ===== src/Core.antt =====
-- crates/rdesk_core/src: the sessions of a controller and of a host, what they capture, encode and
-- send, and the chat, clipboard and file helpers.
pub mod Input
pub mod Clipboard
pub mod Chat
pub mod FileTransfer
pub mod Capture
pub mod Codec
pub mod Lifecycle
pub mod Sessions
pub mod Viewing
pub mod Hosting

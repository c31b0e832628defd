-- ===== src/Crypto.antt =====
-- crates/rdesk_crypto: digests, logins, keys and the encrypted transport.
pub mod Sha256
pub mod Hex
pub mod Auth
pub mod SessionKey
pub mod KeyPair
pub mod Noise

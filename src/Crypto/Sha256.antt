-- ===== src/Crypto/Sha256.antt =====
-- crates/rdesk_crypto/src/auth.rs and session_key.rs: SHA-256, once as a hasher that takes its data
-- in pieces and once as a function. The two files repeat the same tables and the same `compress`.
--
-- A `u32` is a number below 2 ^ 32, and the sums wrap as `wrapping_add` does. A `[u32; 8]` is a
-- record of eight words, and the schedule `[u32; 64]` a list that grows by a word each round.
pub mod Compress
pub mod Digest
pub mod Blocks
pub mod Streaming
pub use Compress.{Words8, h_init}
unfoldable pub use Compress.{compress}
pub use Digest.{Sha256}
unfoldable pub use Digest.{
  new, take_blocks, pad_zeros, pad, digest_of, update, finalize, sha256_concat, sha256,
}

-- ===== src/Crypto/Sha256/Digest.antt =====
-- crates/rdesk_crypto/src/auth.rs: the hasher; session_key.rs: the digest in one call.
use rdesk.Prelude.{
  ℕ, zero, suc, ◌+◌, ◌*◌, ◌%◌, true, false, ltb, ◌==◌, [], ◌∷◌, ◌++◌, length, take, drop, Bytes,
  be32, be64,
}
use rdesk.Crypto.Sha256.Compress.{Words8, h_init, compress}

pub record Sha256 : Type 0 where
  pub state : Words8
  pub buffer : Bytes
  pub total_len : ℕ

unfoldable pub new : Sha256
new = record { state = h_init; buffer = []; total_len = 0 }

-- The loop that compresses blocks of 64 bytes off the front of the buffer as long as there are so
-- many, within `n` rounds: `while self.buffer.len() >= 64`, and the loop over `chunks_exact(64)`.
unfoldable pub take_blocks : ℕ → Words8 → Bytes → Words8 × Bytes
take_blocks zero state buffer = (state, buffer)
take_blocks (suc n) state buffer = elim (ltb (length buffer) 64) [
  | true ↦ (state, buffer)
  | false ↦ take_blocks n (compress state (take 64 buffer)) (drop 64 buffer)
]

-- `Sha256::update`: `total_len` is a `u64`.
unfoldable pub update : Sha256 → Bytes → Sha256
unfolding take_blocks
update self bytes =
    let buffer = self.buffer ++ bytes in
    let left = take_blocks (length buffer) self.state buffer in
    record {
      state = left.0;
      buffer = left.1;
      total_len = (self.total_len + length bytes) % 18446744073709551616;
    }

-- The loop that pushes zeros until eight bytes are missing to a block, within `n` rounds.
unfoldable pub pad_zeros : ℕ → Bytes → Bytes
pad_zeros zero buffer = buffer
pad_zeros (suc n) buffer = elim (length buffer % 64 == 56) [
  | true ↦ buffer
  | false ↦ pad_zeros n (buffer ++ 0 ∷ [])
]

-- The padding of what is left, for a message of that many bits.
unfoldable pub pad : ℕ → Bytes → Bytes
unfolding pad_zeros
pad bit_len buffer = pad_zeros 64 (buffer ++ 0x80 ∷ []) ++ be64 bit_len

unfoldable pub digest_of : Words8 → Bytes
digest_of s =
    be32 s.a
    ++ (be32 s.b ++ (be32 s.c ++ (be32 s.d ++ (be32 s.e ++ (be32 s.f ++ (be32 s.g ++ be32 s.h))))))

unfoldable pub finalize : Sha256 → Bytes
unfolding take_blocks pad digest_of
finalize self =
    let padded = pad (self.total_len * 8 % 18446744073709551616) self.buffer in
    digest_of (take_blocks (length padded) self.state padded).0

-- `sha256_concat` of auth.rs.
unfoldable pub sha256_concat : Bytes → Bytes → Bytes
unfolding new update finalize
sha256_concat a b = finalize (update (update new a) b)

-- `sha256` of session_key.rs.
unfoldable pub sha256 : Bytes → Bytes
unfolding take_blocks pad digest_of
sha256 bytes =
    let padded = pad (length bytes % 18446744073709551616 * 8 % 18446744073709551616) bytes in
    digest_of (take_blocks (length padded) h_init padded).0

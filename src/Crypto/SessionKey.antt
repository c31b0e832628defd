-- ===== src/Crypto/SessionKey.antt =====
-- crates/rdesk_crypto/src/session_key.rs: HMAC and the derivation of a session key.
use Prim.Native.Nat.{bit_xor}
use rdesk.Prelude.{
  ℕ, zero, suc, ◌-◌, ◌<◌, ◌≡◌, refl, ltb, if◌then◌else◌, [], ◌∷◌, ◌++◌, map, arith, length,
  length-append, Bytes, IsBytes,
}
use rdesk.Crypto.Sha256.{sha256}
use rdesk.Crypto.Sha256.Streaming.{sha256-IsDigest}

-- `HKDF_SALT`: rdesk-session-key-v1.
abbrev pub hkdf_salt : Bytes
hkdf_salt =
    b'r' ∷ b'd' ∷ b'e' ∷ b's' ∷ b'k' ∷ b'-' ∷ b's' ∷ b'e' ∷ b's' ∷ b's' ∷ b'i' ∷ b'o' ∷ b'n' ∷ b'-'
    ∷ b'k' ∷ b'e' ∷ b'y' ∷ b'-' ∷ b'v' ∷ b'1' ∷ []

abbrev pub zero_bytes : ℕ → Bytes
zero_bytes zero = []
zero_bytes (suc n) = 0 ∷ zero_bytes n

-- The bytes at the front of a block of 64 that is zero behind them.
unfoldable pub block_of : Bytes → Bytes
block_of bytes = bytes ++ zero_bytes (64 - length bytes)

unfoldable pub key_block : Bytes → Bytes
unfolding block_of
key_block key = if ltb 64 (length key) then block_of (sha256 key) else block_of key

unfoldable pub hmac_sha256 : Bytes → Bytes → Bytes
unfolding key_block
hmac_sha256 key message =
    let i_key_pad = map (bit_xor 0x36) (key_block key) in
    let o_key_pad = map (bit_xor 0x5c) (key_block key) in
    sha256 (o_key_pad ++ sha256 (i_key_pad ++ message))

unfoldable pub derive_session_key : Bytes → Bytes → Bytes
unfolding hmac_sha256
derive_session_key shared_secret context =
    let prk = hmac_sha256 hkdf_salt shared_secret in hmac_sha256 prk (context ++ 1 ∷ [])

zero_bytes-length : (n : ℕ) → length (zero_bytes n) ≡ n
zero_bytes-length zero = omega arith
zero_bytes-length (suc n) = omega (arith, zero_bytes-length n)

-- The block that a key makes is 64 bytes, however long the key is.
pub key_block-length : (key : Bytes) → length (key_block key) ≡ 64
unfolding key_block block_of
key_block-length key = ground (
  arith,
  sha256-IsDigest key,
  length-append key (zero_bytes (64 - length key)),
  length-append (sha256 key) (zero_bytes (64 - length (sha256 key))),
  zero_bytes-length (64 - length key),
  zero_bytes-length (64 - length (sha256 key)),
)

key_block-long : (key : Bytes) → 64 < length key → key_block key ≡ key_block (sha256 key)
unfolding key_block
key_block-long key long = ground (arith, sha256-IsDigest key)

-- A key that is longer than a block authenticates every message as its digest does, as a key.
pub hmac_sha256-long_key :
    (key message : Bytes)
    → 64 < length key
    → hmac_sha256 key message ≡ hmac_sha256 (sha256 key) message
unfolding hmac_sha256
hmac_sha256-long_key key message long = rw (key_block-long key long) refl

-- A session key is 32 bytes.
pub derive_session_key-IsKey :
    (shared_secret context : Bytes)
    → (length (derive_session_key shared_secret context) ≡ 32)
      × IsBytes (derive_session_key shared_secret context)
unfolding derive_session_key hmac_sha256
derive_session_key-IsKey shared_secret context = sha256-IsDigest _

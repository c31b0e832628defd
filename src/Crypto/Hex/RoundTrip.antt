-- ===== src/Crypto/Hex/RoundTrip.antt =====
-- crates/rdesk_crypto/src/auth.rs and keypair.rs: the encoder and the decoders.
use rdesk.Prelude.{
  ℕ, ◌*◌, ◌/◌, ◌%◌, ◌<◌, ◌≡◌, refl, true, false, ◌==◌, ==_iff, some, [], ◌∷◌, arith, length, Bytes,
  IsBytes,
}
use rdesk.Wake.Mac.{hex_digit, read_hex, from_str_radix16}
use rdesk.Crypto.Hex.{
  decoded, continues, begins_inside, decode_pairs, hex_decode, lower_digit, hex_encode,
}

hex_digit-lower : (d : ℕ) → d < 16 → hex_digit (lower_digit d) ≡ some d
unfolding hex_digit
hex_digit-lower d h = ground arith

from_pair :
    (b : ℕ) → b < 256 → from_str_radix16 (lower_digit (b / 16) ∷ lower_digit (b % 16) ∷ []) ≡ some b
unfolding from_str_radix16 read_hex
from_pair b h =
    ground (arith, hex_digit-lower (b / 16) (omega arith), hex_digit-lower (b % 16) (omega arith))

plain_digit : (d : ℕ) → d < 16 → continues (lower_digit d) ≡ false
plain_digit d h = ground arith

begins_plain : (bytes : Bytes) → IsBytes bytes → begins_inside (hex_encode bytes) ≡ false
unfolding hex_encode
begins_plain [] h = refl
begins_plain (b ∷ bytes) h = plain_digit (b / 16) (omega (arith, h.0))

decode_pairs-hex_encode :
    (bytes : Bytes) → IsBytes bytes → decode_pairs (hex_encode bytes) ≡ decoded bytes
unfolding decode_pairs hex_encode
decode_pairs-hex_encode [] h = refl
decode_pairs-hex_encode (b ∷ bytes) h =
    rw
      (
        plain_digit (b / 16) (omega (arith, h.0)),
        begins_plain bytes h.1,
        from_pair b h.0,
        decode_pairs-hex_encode bytes h.1,
      )
      refl

hex_encode-length : (bytes : Bytes) → length (hex_encode bytes) ≡ 2 * length bytes
unfolding hex_encode
hex_encode-length [] = omega arith
hex_encode-length (b ∷ bytes) = omega (arith, hex_encode-length bytes)

-- What `hex::encode` writes of bytes, either decoder reads as those bytes.
pub hex_decode-hex_encode :
    (bytes : Bytes) → IsBytes bytes → hex_decode (hex_encode bytes) ≡ decoded bytes
unfolding hex_decode
hex_decode-hex_encode bytes h =
    let even : (length (hex_encode bytes) % 2 == 0) ≡ true =
      (==_iff (length (hex_encode bytes) % 2) 0).1 (omega (arith, hex_encode-length bytes)) in
    rw even (decode_pairs-hex_encode bytes h)

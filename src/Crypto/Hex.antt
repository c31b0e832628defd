-- ===== src/Crypto/Hex.antt =====
-- crates/rdesk_crypto/src/auth.rs, `hex_decode`, and keypair.rs, the module `hex`: bytes as text.
--
-- A `&str` is the list of its UTF-8 bytes. A slice of it that cuts a character panics.
pub mod RoundTrip
use rdesk.Prelude.{
  ℕ, ◌+◌, ◌/◌, ◌%◌, Bool, true, false, ltb, leb, ◌==◌, ◌&&◌, ◌||◌, not, if◌then◌else◌, Option, none,
  some, List, [], ◌∷◌, ◌++◌, length, Bytes,
}
use rdesk.Wake.Mac.{from_str_radix16}

-- What a decoder of hexadecimal digits gives; the two sources have the same loop, and return an
-- `Option` and a `Result` whose errors tell the length or the place.
pub data Hex : Type 0 where
  decoded : Bytes → Hex
  odd_length : Hex
  invalid : Hex
  panicked : Hex

-- A byte that continues a character: no slice begins or ends in front of it.
abbrev pub continues : ℕ → Bool
continues b = leb 0x80 b && ltb b 0xc0

abbrev pub begins_inside : Bytes → Bool
begins_inside [] = false
begins_inside (b ∷ s) = continues b

abbrev pub cons_byte : ℕ → Hex → Hex
cons_byte v (decoded bytes) = decoded (v ∷ bytes)
cons_byte v odd_length = odd_length
cons_byte v invalid = invalid
cons_byte v panicked = panicked

-- The loop over `(0..s.len()).step_by(2)`, which stops at the first pair that is no byte.
unfoldable pub decode_pairs : Bytes → Hex
unfolding from_str_radix16
decode_pairs [] = decoded []
decode_pairs (a ∷ []) = panicked
decode_pairs (a ∷ b ∷ s) =
    let rest = decode_pairs s in
    if continues a || begins_inside s
    then panicked
    else elim (from_str_radix16 (a ∷ b ∷ [])) [ none ↦ invalid | some v ↦ cons_byte v rest ]

-- `hex_decode` of auth.rs and `hex::decode` of keypair.rs.
unfoldable pub hex_decode : Bytes → Hex
unfolding decode_pairs
hex_decode s = if length s % 2 == 0 then decode_pairs s else odd_length

-- `{b:02x}`.
abbrev pub lower_digit : ℕ → ℕ
lower_digit d = if ltb d 10 then d + b'0' else d + 87

-- `hex::encode`.
unfoldable pub hex_encode : Bytes → Bytes
hex_encode [] = []
hex_encode (b ∷ bytes) = lower_digit (b / 16) ∷ lower_digit (b % 16) ∷ hex_encode bytes

-- ===== src/Wake/Mac.antt =====
-- crates/rdesk_server/src/wake/model.rs: `MacAddress`, its parser and its normal form.
pub mod RoundTrip
use rdesk.Prelude.{
  ℕ, ◌+◌, ◌-◌, ◌*◌, ◌/◌, ◌%◌, Text, trim, byte_len, Bool, false, ◌&&◌, ◌||◌, not, Option, none,
  some, List, [], ◌∷◌, ◌++◌, map, ltb, leb, ◌==◌, if◌then◌else◌, length, any, all,
}
use rdesk.Wake.Model.{WakeResult, ok, err, invalid_mac}

-- The six bytes.
pub record MacAddress : Type 0 where
  pub bytes : List ℕ

-- `char::to_digit(16)`.
unfoldable pub hex_digit : ℕ → Option ℕ
hex_digit c =
    if leb b'0' c && leb c b'9'
    then some (c - b'0')
    else if leb b'A' c && leb c b'F'
    then some (c - 55)
    else if leb b'a' c && leb c b'f'
    then some (c - 87)
    else none

-- The loop of `u8::from_str_radix(_, 16)`, from what is read so far; 255 is the most a u8 holds.
unfoldable pub read_hex : ℕ → Text → Option ℕ
unfolding hex_digit
read_hex acc [] = some acc
read_hex acc (c ∷ s) =
    let d = hex_digit c in
    elim d [
      | none ↦ none
      | some v ↦
          let rest = read_hex (acc * 16 + v) s in if ltb 255 (acc * 16 + v) then none else rest
    ]

-- `u8::from_str_radix(_, 16)`: a plus sign may stand in front of the digits.
unfoldable pub from_str_radix16 : Text → Option ℕ
unfolding read_hex
from_str_radix16 [] = none
from_str_radix16 (c ∷ []) = read_hex 0 (c ∷ [])
from_str_radix16 (c ∷ d ∷ s) = if c == b'+' then read_hex 0 (d ∷ s) else read_hex 0 (c ∷ d ∷ s)

-- `replace('-', ":")`.
abbrev pub dash_to_colon : ℕ → ℕ
dash_to_colon c = if c == b'-' then b':' else c

-- `split(':')`: the part in front of the first separator, and those behind it.
unfoldable pub push_char : ℕ → List Text → List Text
push_char c [] = (c ∷ []) ∷ []
push_char c (part ∷ parts) = (c ∷ part) ∷ parts

unfoldable pub split : Text → List Text
unfolding push_char
split [] = [] ∷ []
split (c ∷ s) = let rest = split s in if c == b':' then [] ∷ rest else push_char c rest

unfoldable pub parse_parts : List Text → WakeResult (List ℕ)
unfolding from_str_radix16
parse_parts [] = ok []
parse_parts (p ∷ ps) = elim (from_str_radix16 p) [
  | none ↦ err invalid_mac
  | some b ↦ elim (parse_parts ps) [ ok bs ↦ ok (b ∷ bs) | err e ↦ err e ]
]

-- `bytes[0] & 1 != 0`: the address of a group.
unfoldable pub is_group : List ℕ → Bool
is_group [] = false
is_group (b ∷ bs) = not (b % 2 == 0)

unfoldable pub check_bytes : WakeResult (List ℕ) → WakeResult MacAddress
unfolding is_group
check_bytes (err e) = err e
check_bytes (ok bytes) =
    if all (λ b. b == 0) bytes || is_group bytes
    then err invalid_mac
    else ok (record { bytes = bytes })

-- `MacAddress::parse`.
unfoldable pub parse : Text → WakeResult MacAddress
unfolding split parse_parts check_bytes byte_len trim
parse raw =
    let parts = split (map dash_to_colon (trim raw)) in
    if not (length parts == 6) || any (λ p. not (byte_len p == 2)) parts
    then err invalid_mac
    else check_bytes (parse_parts parts)

-- `{b:02X}`.
abbrev pub upper_digit : ℕ → ℕ
upper_digit d = if ltb d 10 then d + b'0' else d + 55

abbrev pub hex_byte : ℕ → Text
hex_byte b = upper_digit (b / 16) ∷ upper_digit (b % 16) ∷ []

-- `join(":")`.
unfoldable pub join : List Text → Text
join [] = []
join (p ∷ []) = p
join (p ∷ q ∷ ps) = p ++ b':' ∷ join (q ∷ ps)

-- `MacAddress::normalized`.
unfoldable pub normalized : MacAddress → Text
unfolding join
normalized m = join (map hex_byte m.bytes)

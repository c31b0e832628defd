-- ===== src/Net/Stun.antt =====
-- crates/rdesk_net/src/p2p/stun.rs: binding requests and what is read of their answers.
--
-- A datagram is the list of its bytes. The sockets, the look-up of the server and the random
-- identifier are outside: the parser gets the datagram that came and the identifier that was sent.
pub mod Answers
pub mod Masks
pub mod RoundTrip
use Prim.Native.Nat.{bit_xor}
use rdesk.Prelude.{
  ℕ, zero, suc, ◌+◌, ◌*◌, ◌/◌, ltb, ◌==◌, not, if◌then◌else◌, text_eq, List, [], ◌∷◌, ◌++◌, length,
  take, drop, Bytes, be16, be32, from_be,
}

abbrev pub binding_request : ℕ
binding_request = 0x0001

abbrev pub binding_response : ℕ
binding_response = 0x0101

abbrev pub magic_cookie : ℕ
magic_cookie = 0x2112a442

abbrev pub attr_xor_mapped_address : ℕ
attr_xor_mapped_address = 0x0020

abbrev pub attr_mapped_address : ℕ
attr_mapped_address = 0x0001

abbrev pub stun_header_size : ℕ
stun_header_size = 20

abbrev pub family_ipv4 : ℕ
family_ipv4 = 0x01

-- The addresses that the parser makes: IPv4 ones.
pub record SocketAddr : Type 0 where
  pub ip : Bytes
  pub port : ℕ

-- The errors of the parser.
pub data StunError : Type 0 where
  too_short unexpected_type invalid_cookie transaction_mismatch truncated : StunError
  no_address address_too_short unsupported_family : StunError

pub data Parsed : Type 0 where
  ok : SocketAddr → Parsed
  err : StunError → Parsed

unfoldable pub build_binding_request : Bytes → Bytes
build_binding_request transaction_id =
    be16 binding_request ++ (be16 0 ++ (be32 magic_cookie ++ transaction_id))

-- `data[i]`, on data that are long enough.
abbrev pub byte_at : ℕ → Bytes → ℕ
byte_at i bytes = from_be (take 1 (drop i bytes))

abbrev pub u16_at : ℕ → Bytes → ℕ
u16_at i bytes = from_be (take 2 (drop i bytes))

abbrev pub u32_at : ℕ → Bytes → ℕ
u32_at i bytes = from_be (take 4 (drop i bytes))

unfoldable pub parse_xor_mapped_address : Bytes → Parsed
parse_xor_mapped_address bytes =
    if ltb (length bytes) 8
    then err address_too_short
    else if not (byte_at 1 bytes == family_ipv4)
    then err unsupported_family
    else ok (record {
      ip =
          bit_xor (byte_at 4 bytes) 0x21
          ∷ bit_xor (byte_at 5 bytes) 0x12
          ∷ bit_xor (byte_at 6 bytes) 0xa4
          ∷ bit_xor (byte_at 7 bytes) 0x42
          ∷ [];
      port = bit_xor (u16_at 2 bytes) (magic_cookie / 65536);
    })

unfoldable pub parse_mapped_address : Bytes → Parsed
parse_mapped_address bytes =
    if ltb (length bytes) 8
    then err address_too_short
    else if not (byte_at 1 bytes == family_ipv4)
    then err unsupported_family
    else ok (record {
      ip = byte_at 4 bytes ∷ byte_at 5 bytes ∷ byte_at 6 bytes ∷ byte_at 7 bytes ∷ [];
      port = u16_at 2 bytes;
    })

-- `(attr_len + 3) & !3`.
abbrev pub padded : ℕ → ℕ
padded attr_len = (attr_len + 3) / 4 * 4

-- The plain address, or what the rest of the scan gives.
abbrev pub or_rest : Parsed → Parsed → Parsed
or_rest (ok addr) rest = ok addr
or_rest (err e) rest = rest

-- What an attribute decides: `rest` is the outcome of the scan behind it.
unfoldable pub attribute : ℕ → Bytes → Parsed → Parsed
unfolding parse_xor_mapped_address parse_mapped_address
attribute attr_type attr_data rest =
    if attr_type == attr_xor_mapped_address
    then parse_xor_mapped_address attr_data
    else if attr_type == attr_mapped_address
    then or_rest (parse_mapped_address attr_data) rest
    else rest

-- The loop over the attributes, within `n` rounds; `attrs` is what stands at `offset` and behind it.
unfoldable pub scan : ℕ → Bytes → Parsed
unfolding attribute
scan zero attrs = err no_address
scan (suc n) attrs =
    let attr_len = u16_at 2 attrs in
    let rest = scan n (drop (padded attr_len) (drop 4 attrs)) in
    if ltb (length attrs) 4
    then err no_address
    else if ltb (length attrs) (4 + attr_len)
    then err no_address
    else attribute (u16_at 0 attrs) (take attr_len (drop 4 attrs)) rest

unfoldable pub parse_binding_response : Bytes → Bytes → Parsed
unfolding scan
parse_binding_response bytes expected_txn_id =
    let msg_len = u16_at 2 bytes in
    let attrs = take msg_len (drop stun_header_size bytes) in
    if ltb (length bytes) stun_header_size
    then err too_short
    else if not (u16_at 0 bytes == binding_response)
    then err unexpected_type
    else if not (u32_at 4 bytes == magic_cookie)
    then err invalid_cookie
    else if not (text_eq (take 12 (drop 8 bytes)) expected_txn_id)
    then err transaction_mismatch
    else if ltb (length bytes) (stun_header_size + msg_len)
    then err truncated
    else scan (suc (length attrs)) attrs

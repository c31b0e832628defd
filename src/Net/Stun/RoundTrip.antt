-- ===== src/Net/Stun/RoundTrip.antt =====
-- crates/rdesk_net/src/p2p/stun.rs: the answers that a server builds as RFC 5389 says.
use rdesk.Prelude.{
  ℕ, suc, ◌+◌, ◌*◌, ◌≤◌, ◌<◌, ◌≡◌, ◌≢◌, refl, sym, ap, ◌∙◌, false, ltb, text_eq_refl, List, [], ◌∷◌,
  ◌++◌, arith, length, take, drop, All, Bytes, be16, be32, from_be, from_be-be16, append-nil,
  take-append_self, drop-append_self, length-append,
}
use rdesk.Net.Stun.{
  binding_response, magic_cookie, attr_xor_mapped_address, attr_mapped_address, stun_header_size,
  SocketAddr, ok, padded, attribute, scan, parse_binding_response,
}
use rdesk.Net.Stun.Masks.{IsIpv4, xor_mapped, parse-xor_mapped}
use rdesk.Net.Stun.Answers.{scan_fuel}

-- An attribute of another type, with its padding.
pub record Attribute : Type 0 where
  pub type : ℕ
  pub value : Bytes
  pub padding : Bytes

pub record IsOther (x : Attribute) : Type 0 where
  pub type16 : x.type < 65536
  pub not_xor : x.type ≢ attr_xor_mapped_address
  pub not_plain : x.type ≢ attr_mapped_address
  pub length16 : length x.value < 65536
  pub aligned : length x.value + length x.padding ≡ padded (length x.value)

abbrev pub encode_attribute : Attribute → Bytes
encode_attribute x = be16 x.type ++ (be16 (length x.value) ++ (x.value ++ x.padding))

unfoldable pub encode_attributes : List Attribute → Bytes → Bytes
encode_attributes [] rest = rest
encode_attributes (x ∷ xs) rest = encode_attribute x ++ encode_attributes xs rest

scan_other :
    (x : Attribute) (n : ℕ) (rest : Bytes)
    → IsOther x
    → scan (suc n) (encode_attribute x ++ rest) ≡ scan n rest
unfolding scan attribute
scan_other x n rest o =
    let len : from_be (be16 (length x.value)) ≡ length x.value = from_be-be16 _ o.length16 in
    let type : from_be (be16 x.type) ≡ x.type = from_be-be16 _ o.type16 in
    let e1 : length (x.value ++ x.padding ++ rest) ≡ padded (length x.value) + length rest = omega (
      arith,
      length-append (x.value ++ x.padding) rest,
      length-append x.value x.padding,
      o.aligned,
    ) in
    let behind : drop (padded (length x.value)) (x.value ++ x.padding ++ rest) ≡ rest =
      rw (sym o.aligned, sym (length-append x.value x.padding))
        (drop-append_self (x.value ++ x.padding) rest) in
    rw (len, type, behind) (ground (arith, e1, o.not_xor, o.not_plain))

-- The scan passes over the attributes of other types, if it has rounds for them.
scan_others :
    (xs : List Attribute) (n : ℕ) (rest : Bytes)
    → All IsOther xs
    → scan (length xs + n) (encode_attributes xs rest) ≡ scan n rest
unfolding encode_attributes
scan_others [] n rest o = ap (λ k. scan k rest) (omega arith)
scan_others (x ∷ xs) n rest o =
    let k : length (x ∷ xs) + n ≡ suc (length xs + n) = omega arith in
    rw (k, scan_other x (length xs + n) (encode_attributes xs rest) o.0) (scan_others xs n rest o.1)

encode_attributes-length :
    (xs : List Attribute) (rest : Bytes)
    → 4 * length xs + length rest ≤ length (encode_attributes xs rest)
unfolding encode_attributes
encode_attributes-length [] rest = omega arith
encode_attributes-length (x ∷ xs) rest = omega (
  arith,
  encode_attributes-length xs rest,
  length-append (encode_attribute x) (encode_attributes xs rest),
)

abbrev pub xor_attribute : ℕ → ℕ → ℕ → ℕ → ℕ → Bytes
xor_attribute a b c d port = be16 attr_xor_mapped_address ++ (be16 8 ++ xor_mapped a b c d port)

scan_address :
    (addr : SocketAddr) (a b c d n : ℕ) (rest : Bytes)
    → IsIpv4 addr a b c d
    → scan (suc n) (xor_attribute a b c d addr.port ++ rest) ≡ ok addr
unfolding scan attribute
scan_address addr a b c d n rest v = ground (arith, parse-xor_mapped addr a b c d v)

abbrev pub response : Bytes → Bytes → Bytes
response transaction_id attrs =
    be16 binding_response
    ++ (be16 (length attrs) ++ (be32 magic_cookie ++ (transaction_id ++ attrs)))

no_less : (a b : ℕ) → b ≤ a → ltb a b ≡ false
no_less a b h = ground arith

-- The parser of a whole response scans its attributes.
parse_whole :
    (transaction_id attrs : Bytes)
    → length transaction_id ≡ 12
    → length attrs < 65536
    → parse_binding_response (response transaction_id attrs) transaction_id
      ≡ scan (suc (length attrs)) attrs
unfolding parse_binding_response
parse_whole transaction_id attrs t short =
    let len : from_be (be16 (length attrs)) ≡ length attrs = from_be-be16 _ short in
    let id : take 12 (transaction_id ++ attrs) ≡ transaction_id =
      rw (sym t) (take-append_self transaction_id attrs) in
    let body : drop 12 (transaction_id ++ attrs) ≡ attrs =
      rw (sym t) (drop-append_self transaction_id attrs) in
    let all : take (length attrs) attrs ≡ attrs =
      rw (append-nil attrs) at (take-append_self attrs []) in
    let same = text_eq_refl transaction_id in
    let l : length (transaction_id ++ attrs) ≡ 12 + length attrs =
      omega (arith, t, length-append transaction_id attrs) in
    let whole : length (response transaction_id attrs) ≡ 20 + length attrs = omega (arith, l) in
    let long : ltb (length (response transaction_id attrs)) stun_header_size ≡ false =
      no_less _ _ (omega (arith, whole)) in
    let fits : ltb (length (response transaction_id attrs)) (stun_header_size + length attrs)
        ≡ false =
      no_less _ _ (omega (arith, whole)) in
    rw (len, id, same, body, all, long, fits) refl

-- An answer to a request with an identifier of 12 bytes, whose attributes are shorter than 2 ^ 16
-- bytes: any well-formed attributes of other types, then an IPv4 address under
-- XOR-MAPPED-ADDRESS, then anything, is parsed as that address.
pub parse_binding_response-response :
    (addr : SocketAddr) (a b c d : ℕ) (transaction_id : Bytes) (others : List Attribute)
    (more : Bytes)
    → IsIpv4 addr a b c d
    → length transaction_id ≡ 12
    → All IsOther others
    → length (encode_attributes others (xor_attribute a b c d addr.port ++ more)) < 65536
    → parse_binding_response
        (response transaction_id
          (encode_attributes others (xor_attribute a b c d addr.port ++ more)))
        transaction_id
      ≡ ok addr
unfolding parse_binding_response
parse_binding_response-response addr a b c d transaction_id others more v t o short =
    let attrs = encode_attributes others (xor_attribute a b c d addr.port ++ more) in
    let l = encode_attributes-length others (xor_attribute a b c d addr.port ++ more) in
    let read : scan (suc (length attrs)) attrs ≡ ok addr =
      scan_fuel (suc (length attrs)) (length others + suc (length attrs)) attrs (omega arith)
        (omega arith)
      ∙ scan_others others (suc (length attrs)) _ o
      ∙ scan_address addr a b c d (length attrs) more v in
    parse_whole transaction_id attrs t short ∙ read

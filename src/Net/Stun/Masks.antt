-- ===== src/Net/Stun/Masks.antt =====
-- crates/rdesk_net/src/p2p/stun.rs: an address under the mask of the cookie.
use Prim.Native.Nat.{bit_xor}
use rdesk.Prelude.{
  ℕ, zero, suc, ◌+◌, ◌<◌, ◌≡◌, refl, sym, Bool, true, false, Bool-cases, inl, inr, if◌then◌else◌,
  ltb, ltb→lt, ◌==◌, ==_iff, [], ◌∷◌, ◌++◌, arith, Bytes, IsBytes, be16, from_be-be16,
}
use rdesk.Net.Stun.{SocketAddr, ok, parse_xor_mapped_address}

tested_first : (b c : Bool) → (if b then c else false) ≡ true → b ≡ true
tested_first b c h = ground arith

tested_rest : (b c : Bool) → (if b then c else false) ≡ true → c ≡ true
tested_rest b c h = ground arith

-- A mask on a word: it comes off again, and leaves the word below the limit.
abbrev comes_off : ℕ → ℕ → ℕ → Bool
comes_off limit mask word =
    if bit_xor (bit_xor word mask) mask == word then ltb (bit_xor word mask) limit else false

-- So for each word below `n`, by evaluation.
unfoldable masks : ℕ → ℕ → ℕ → Bool
masks limit mask zero = true
masks limit mask (suc word) = if comes_off limit mask word then masks limit mask word else false

off_each :
    (limit mask word n : ℕ)
    → word < n
    → masks limit mask n ≡ true
    → comes_off limit mask word ≡ true
unfolding masks
off_each limit mask word zero low tested = absurd (omega arith)
off_each limit mask word (suc n) low tested = elim (Bool-cases (word == n)) [
  | inl same ↦ rw ((==_iff word n).0 same) (tested_first _ _ tested)
  | inr other ↦ off_each limit mask word n (ground arith) (tested_rest _ _ tested)
]

unmasked :
    (limit mask word : ℕ)
    → masks limit mask limit ≡ true
    → word < limit
    → (bit_xor (bit_xor word mask) mask ≡ word) × (bit_xor word mask < limit)
unmasked limit mask word tested low =
    let off = off_each limit mask word limit low tested in
    ((==_iff _ word).0 (tested_first _ _ off), ltb→lt _ _ (tested_rest _ _ off))

port_mask : masks 65536 0x2112 65536 ≡ true
unfolding masks
port_mask = refl

octet_masks :
    (masks 256 0x21 256 ≡ true)
    × (masks 256 0x12 256 ≡ true)
    × (masks 256 0xa4 256 ≡ true)
    × (masks 256 0x42 256 ≡ true)
unfolding masks
octet_masks = (refl, refl, refl, refl)

-- An address, as a server puts it into XOR-MAPPED-ADDRESS.
pub record IsIpv4 (addr : SocketAddr) (a b c d : ℕ) : Type 0 where
  pub octets : addr.ip ≡ a ∷ b ∷ c ∷ d ∷ []
  pub bytes : IsBytes (a ∷ b ∷ c ∷ d ∷ [])
  pub port16 : addr.port < 65536

abbrev pub xor_mapped : ℕ → ℕ → ℕ → ℕ → ℕ → Bytes
xor_mapped a b c d port =
    0 ∷ 1 ∷ be16 (bit_xor port 0x2112)
    ++ (bit_xor a 0x21 ∷ bit_xor b 0x12 ∷ bit_xor c 0xa4 ∷ bit_xor d 0x42 ∷ [])

pub parse-xor_mapped :
    (addr : SocketAddr) (a b c d : ℕ)
    → IsIpv4 addr a b c d
    → parse_xor_mapped_address (xor_mapped a b c d addr.port) ≡ ok addr
unfolding parse_xor_mapped_address
parse-xor_mapped addr a b c d v =
    let plain : (z : ℕ) → 0 + z ≡ z = λ z. omega arith in
    let port = unmasked 65536 0x2112 addr.port port_mask v.port16 in
    rw
      (
        plain (bit_xor a 0x21),
        plain (bit_xor b 0x12),
        plain (bit_xor c 0xa4),
        plain (bit_xor d 0x42),
        (unmasked 256 0x21 a octet_masks.0 v.bytes.0).0,
        (unmasked 256 0x12 b octet_masks.1 v.bytes.1.0).0,
        (unmasked 256 0xa4 c octet_masks.2 v.bytes.1.1.0).0,
        (unmasked 256 0x42 d octet_masks.3 v.bytes.1.1.1.0).0,
        from_be-be16 (bit_xor addr.port 0x2112) port.1,
        port.0,
        sym v.octets,
      )
      refl

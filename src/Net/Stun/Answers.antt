-- ===== src/Net/Stun/Answers.antt =====
-- crates/rdesk_net/src/p2p/stun.rs: which answers are accepted, and what is read of them.
use rdesk.Prelude.{
  ℕ, zero, suc, ◌+◌, ◌-◌, ◌≤◌, ◌<◌, ◌≡◌, refl, sym, ap, ◌∙◌, Bool, true, false, not, if◌then◌else◌,
  ltb, ◌==◌, text_eq_iff, arith, length, take, drop, Bytes, length-drop, Bool-cases, inl, inr,
}
use rdesk.Net.Stun.{
  binding_response, magic_cookie, stun_header_size, SocketAddr, StunError, Parsed, ok, err, u16_at,
  u32_at, padded, scan, parse_binding_response,
}

-- What is accepted is an answer to this very request, and whole.
pub record IsAnswer (bytes transaction_id : Bytes) : Type 0 where
  pub is_response : u16_at 0 bytes ≡ binding_response
  pub has_cookie : u32_at 4 bytes ≡ magic_cookie
  pub same_transaction : take 12 (drop 8 bytes) ≡ transaction_id
  pub is_whole : stun_header_size + u16_at 2 bytes ≤ length bytes

-- A check that a parse which succeeds has passed.
passed :
    (b : Bool) (e : StunError) {rest : Parsed} {addr : SocketAddr}
    → (if b then err e else rest) ≡ ok addr
    → (b ≡ false) × (rest ≡ ok addr)
passed true e h = absurd (ground arith)
passed false e h = (refl, h)

is_equal : (a b : ℕ) → not (a == b) ≡ false → a ≡ b
is_equal a b h = ground arith

not-false : (b : Bool) → not b ≡ false → b ≡ true
not-false true h = refl
not-false false h = sym h

not_less : {a b : ℕ} → ltb a b ≡ false → b ≤ a
not_less {a} {b} h = ground arith

-- Only a whole response to this very request yields an address.
pub parse_binding_response-IsAnswer :
    (bytes transaction_id : Bytes) (addr : SocketAddr)
    → parse_binding_response bytes transaction_id ≡ ok addr
    → IsAnswer bytes transaction_id
unfolding parse_binding_response
parse_binding_response-IsAnswer bytes transaction_id addr e =
    let long = passed _ _ e in
    let type = passed _ _ long.1 in
    let cookie = passed _ _ type.1 in
    let same = passed _ _ cookie.1 in
    let whole = passed _ _ same.1 in
    record {
      is_response = is_equal _ _ type.0;
      has_cookie = is_equal _ _ cookie.0;
      same_transaction = (text_eq_iff _ _).0 (not-false _ same.0);
      is_whole = not_less whole.0;
    }

-- The rounds of the loop do not matter once there are more than bytes.
pub scan_fuel :
    (n m : ℕ) (attrs : Bytes) → length attrs < n → length attrs < m → scan n attrs ≡ scan m attrs
unfolding scan
scan_fuel zero m attrs h k = absurd (omega arith)
scan_fuel (suc n) zero attrs h k = absurd (omega arith)
scan_fuel (suc n) (suc m) attrs h k = elim (Bool-cases (ltb (length attrs) 4)) [
  | inl e ↦ rw (scan, e) refl
  | inr e ↦
      let next = drop (padded (u16_at 2 attrs)) (drop 4 attrs) in
      let l : length next ≡ length attrs - 4 - padded (u16_at 2 attrs) =
        length-drop (padded (u16_at 2 attrs)) (drop 4 attrs)
        ∙ ap (λ k. k - padded (u16_at 2 attrs)) (length-drop 4 attrs) in
      let s : 4 ≤ length attrs = ground arith in
      rw (scan_fuel n m next (omega (arith, l)) (omega (arith, l))) refl
]

-- ===== src/Net/NatDetect.antt =====
-- crates/rdesk_net/src/p2p/nat_detect.rs: the type of a NAT, from what several servers see.
--
-- A server's answer is a parameter: the address that `discover_external_addr_with_socket` gives, or
-- none where it fails. So are the socket's own results.
use rdesk.Prelude.{
  ℕ, suc, ◌<◌, ◌≤◌, ◌≡◌, ◌↔◌, refl, Bool, true, false, ◌&&◌, ltb, ◌==◌, if◌then◌else◌, text_eq,
  text_eq_iff, text_eq_refl, Option, none, some, List, [], ◌∷◌, arith, length, all, All, Bool-cases,
  inl, inr, ltb→lt, ap, sym, ℤ, pos, negsuc,
}
use rdesk.Net.Stun.{SocketAddr}

pub data NatType : Type 0 where
  unknown symmetric full_cone restricted_cone port_restricted_cone : NatType

unfoldable pub to_i32 : NatType → ℤ
to_i32 unknown = pos 0
to_i32 symmetric = pos 1
to_i32 full_cone = pos 2
to_i32 restricted_cone = pos 3
to_i32 port_restricted_cone = pos 4

unfoldable pub from_i32 : ℤ → NatType
from_i32 (negsuc n) = unknown
from_i32 (pos n) =
    if n == 1
    then symmetric
    else if n == 2
    then full_cone
    else if n == 3
    then restricted_cone
    else if n == 4
    then port_restricted_cone
    else unknown

abbrev pub min_stun_servers : ℕ
min_stun_servers = 2

-- The addresses that were answered, in order: the loop over the servers.
unfoldable pub mapped_addrs : List (Option SocketAddr) → List SocketAddr
mapped_addrs [] = []
mapped_addrs (none ∷ answers) = mapped_addrs answers
mapped_addrs (some addr ∷ answers) = addr ∷ mapped_addrs answers

-- The type, from the addresses.
unfoldable pub nat_type_of : List SocketAddr → NatType
nat_type_of [] = unknown
nat_type_of (first ∷ addrs) =
    let all_same_ip = all (λ a. text_eq a.ip first.ip) (first ∷ addrs) in
    let all_same_port = all (λ a. a.port == first.port) (first ∷ addrs) in
    if ltb (length (first ∷ addrs)) min_stun_servers
    then unknown
    else if all_same_ip && all_same_port
    then full_cone
    else symmetric

-- What `detect_nat_type` returns.
pub data Detected : Type 0 where
  ok : NatType → Detected
  bind_failed no_local_addr : Detected

-- `bound` and `local` say whether the socket was bound and told its address.
unfoldable pub detect_nat_type : Bool → Bool → List (Option SocketAddr) → Detected
unfolding nat_type_of mapped_addrs
detect_nat_type bound local answers =
    if ltb (length answers) min_stun_servers
    then ok unknown
    else if bound
    then (if local then ok (nat_type_of (mapped_addrs answers)) else no_local_addr)
    else bind_failed

-- Every answer tells the same address.
abbrev pub Agree : SocketAddr → List SocketAddr → Type 0
Agree first = All (λ a. (a.ip ≡ first.ip) × (a.port ≡ first.port))

Agree-iff :
    (first : SocketAddr) (addrs : List SocketAddr)
    → ((all (λ a. text_eq a.ip first.ip) addrs && all (λ a. a.port == first.port) addrs) ≡ true)
      ↔ Agree first addrs
Agree-iff first [] = (λ h. tt, λ h. refl)
Agree-iff first (a ∷ addrs) = ground (arith, text_eq_iff a.ip first.ip, Agree-iff first addrs)

nat_type_of_lem :
    (first : SocketAddr) (addrs : List SocketAddr)
    → ((nat_type_of (first ∷ addrs) ≡ full_cone) ↔ ((1 ≤ length addrs) × Agree first addrs))
      × ((nat_type_of (first ∷ addrs) ≡ unknown) ↔ (length addrs ≡ 0))
unfolding nat_type_of
nat_type_of_lem first [] = ground arith
nat_type_of_lem first (a ∷ addrs) =
    let same = Agree-iff first (a ∷ addrs) in
    let self = text_eq_refl first.ip in
    let n : ltb (suc (suc (length addrs))) 2 ≡ false = ground arith in
    let port : (first.port == first.port) ≡ true = ground arith in
    rw (n, self, port) (by_agreement _ same)
  where
    by_agreement :
        (b : Bool)
        → ((b ≡ true) ↔ Agree first (a ∷ addrs))
        → (((if b then full_cone else symmetric) ≡ full_cone)
            ↔ ((1 ≤ length (a ∷ addrs)) × Agree first (a ∷ addrs)))
          × (((if b then full_cone else symmetric) ≡ unknown) ↔ (length (a ∷ addrs) ≡ 0))
    by_agreement true same = (
      (λ e. (omega arith, same.0 refl), λ h. refl),
      (λ e. absurd (ground arith), λ e. absurd (omega arith)),
    )
    by_agreement false same = (
      (λ e. absurd (ground arith), λ h. absurd (ground (arith, same.1 h.1))),
      (λ e. absurd (ground arith), λ e. absurd (omega arith)),
    )

length-mapped_addrs :
    (answers : List (Option SocketAddr)) → length (mapped_addrs answers) ≤ length answers
unfolding mapped_addrs
length-mapped_addrs [] = omega arith
length-mapped_addrs (none ∷ answers) = omega (arith, length-mapped_addrs answers)
length-mapped_addrs (some a ∷ answers) = omega (arith, length-mapped_addrs answers)

detects :
    (first : SocketAddr) (addrs : List SocketAddr) (answers : List (Option SocketAddr))
    → mapped_addrs answers ≡ first ∷ addrs
    → detect_nat_type true true answers ≡ ok (nat_type_of (first ∷ addrs))
unfolding detect_nat_type
detects first addrs answers e = elim (Bool-cases (ltb (length answers) 2)) [
  | inl few ↦
      let l : length (mapped_addrs answers) ≡ suc (length addrs) = rw e refl in
      let n : length answers < 2 = ltb→lt _ _ few in
      let short : length addrs ≡ 0 = omega (arith, length-mapped_addrs answers) in
      rw few (ap ok (sym ((nat_type_of_lem first addrs).1.1 short)))
  | inr many ↦ rw (many, e) refl
]

ok_inj : {x y : NatType} → ok x ≡ ok y → x ≡ y
ok_inj e = cc e

-- On a socket that works, at least two answers that are all alike make a full cone, two answers that
-- differ a symmetric NAT, and fewer answers leave it unknown.
pub detect_nat_type_lem :
    (first : SocketAddr) (addrs : List SocketAddr) (answers : List (Option SocketAddr))
    → mapped_addrs answers ≡ first ∷ addrs
    → ((detect_nat_type true true answers ≡ ok full_cone)
        ↔ ((1 ≤ length addrs) × Agree first addrs))
      × ((detect_nat_type true true answers ≡ ok unknown) ↔ (length addrs ≡ 0))
detect_nat_type_lem first addrs answers e =
    let n = nat_type_of_lem first addrs in
    rw (detects first addrs answers e)
      ((λ h. n.0.0 (ok_inj h), λ h. ap ok (n.0.1 h)), (λ h. n.1.0 (ok_inj h), λ h. ap ok (n.1.1 h)))

pub from_i32-to_i32 : (t : NatType) → from_i32 (to_i32 t) ≡ t
unfolding from_i32 to_i32
from_i32-to_i32 unknown = refl
from_i32-to_i32 symmetric = refl
from_i32-to_i32 full_cone = refl
from_i32-to_i32 restricted_cone = refl
from_i32-to_i32 port_restricted_cone = refl

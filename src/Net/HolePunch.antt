-- ===== src/Net/HolePunch.antt =====
-- crates/rdesk_net/src/p2p/hole_punch.rs: probes, and the loop that waits for one.
--
-- What the socket and the clock do is a sequence of events: the results of the rounds of the loop.
use rdesk.Prelude.{
  ℕ, zero, suc, ◌+◌, ◌≡◌, ◌≢◌, refl, sym, Bool, true, false, ◌&&◌, ltb, not, if◌then◌else◌, text_eq,
  text_eq_iff, List, [], ◌∷◌, ◌++◌, arith, length, take, drop, take-drop, All, ap, ◌∙◌, Bytes, be16,
  Bool-cases, inl, inr,
}
use rdesk.Net.Stun.{SocketAddr}

-- `RDPN`.
abbrev pub punch_magic : Bytes
punch_magic = b'R' ∷ b'D' ∷ b'P' ∷ b'N' ∷ []

unfoldable pub build_probe : ℕ → Bytes
build_probe local_port = punch_magic ++ be16 local_port

unfoldable pub is_valid_probe : Bytes → Bool
is_valid_probe bytes =
    not (ltb (length bytes) (length punch_magic))
    && text_eq (take (length punch_magic) bytes) punch_magic

-- A round: the ticker fires, a datagram comes from an address, the socket reports an error, or the
-- time is over.
pub data Event : Type 0 where
  tick : Event
  received : Bytes → SocketAddr → Event
  recv_error : Event
  timed_out : Event

-- What the socket is given to send, and where to.
pub record Datagram : Type 0 where
  pub contents : Bytes
  pub destination : SocketAddr

-- How the loop stands: still waiting, over with the socket connected to an address, or failed.
pub data Punch : Type 0 where
  waiting : Punch
  connected : SocketAddr → Punch
  connect_failed : Punch
  time_over : Punch

-- The loop of `punch_hole`, with the datagrams that it gives the socket, the first one first,
-- delivered or not; `connects` says to which addresses the socket can be connected.
module _ (connects : SocketAddr → Bool) (local_port : ℕ) (peer_addr : SocketAddr) where
  abbrev pub probe : Datagram
  probe = record { contents = build_probe local_port; destination = peer_addr }

  unfoldable pub punch_loop : List Event → List Datagram × Punch
  unfolding build_probe is_valid_probe
  punch_loop [] = ([], waiting)
  punch_loop (tick ∷ events) = let (sent, outcome) = punch_loop events in (probe ∷ sent, outcome)
  punch_loop (received bytes src ∷ events) =
      let rest = punch_loop events in
      if is_valid_probe bytes
      then (
        probe ∷ probe ∷ probe ∷ [],
        if connects peer_addr then connected peer_addr else connect_failed,
      )
      else rest
  punch_loop (recv_error ∷ events) = punch_loop events
  punch_loop (timed_out ∷ events) = ([], time_over)

-- A round that decides nothing: a tick, an error, or a datagram that does not begin with the magic
-- bytes.
abbrev pub IsIdle : Event → Type 0
IsIdle tick = Unit
IsIdle (received bytes src) = (rest : Bytes) → bytes ≢ b'R' ∷ b'D' ∷ b'P' ∷ b'N' ∷ rest
IsIdle recv_error = Unit
IsIdle timed_out = true ≡ false

abbrev pub ticks : List Event → ℕ
ticks [] = 0
ticks (tick ∷ events) = suc (ticks events)
ticks (received bytes src ∷ events) = ticks events
ticks (recv_error ∷ events) = ticks events
ticks (timed_out ∷ events) = ticks events

-- So many of the same datagram.
abbrev pub repeated : ℕ → Datagram → List Datagram
repeated zero d = []
repeated (suc n) d = d ∷ repeated n d

probe_begins : (bytes : Bytes) → is_valid_probe bytes ≡ true → bytes ≡ punch_magic ++ drop 4 bytes
unfolding is_valid_probe
probe_begins bytes h =
    sym (take-drop 4 bytes)
    ∙ ap (λ magic. magic ++ drop 4 bytes)
        ((text_eq_iff (take 4 bytes) punch_magic).0 (ground arith))

idle_invalid :
    (bytes : Bytes)
    → ((rest : Bytes) → bytes ≢ b'R' ∷ b'D' ∷ b'P' ∷ b'N' ∷ rest)
    → is_valid_probe bytes ≡ false
idle_invalid bytes h = elim (Bool-cases (is_valid_probe bytes)) [
  | inl valid ↦ absurd (h (drop 4 bytes) (probe_begins bytes valid))
  | inr invalid ↦ invalid
]

magic_valid : (rest : Bytes) → is_valid_probe (b'R' ∷ b'D' ∷ b'P' ∷ b'N' ∷ rest) ≡ true
unfolding is_valid_probe text_eq
magic_valid rest = ground arith

-- Behind rounds that decide nothing, with the first datagram that begins with the magic bytes, the
-- loop ends, whatever else stands in the datagram and whatever address it comes from. By then it
-- has sent the magic bytes with its own port to the peer once for each tick and three times more,
-- and nothing else. The socket is connected to the peer, or the loop fails where it cannot be.
pub punch_loop-probe :
    (connects : SocketAddr → Bool) (local_port : ℕ) (peer_addr src : SocketAddr) (rest : Bytes)
    (before after : List Event)
    → All IsIdle before
    → punch_loop connects local_port peer_addr
        (before ++ received (b'R' ∷ b'D' ∷ b'P' ∷ b'N' ∷ rest) src ∷ after)
      ≡ (
        repeated (ticks before + 3) (record {
          contents = b'R' ∷ b'D' ∷ b'P' ∷ b'N' ∷ be16 local_port;
          destination = peer_addr;
        }),
        if connects peer_addr then connected peer_addr else connect_failed,
      )
unfolding punch_loop build_probe
punch_loop-probe connects local_port peer_addr src rest [] after h = rw (magic_valid rest) refl
punch_loop-probe connects local_port peer_addr src rest (tick ∷ before) after h =
    ap (λ r. (probe connects local_port peer_addr ∷ r.0, r.1))
      (punch_loop-probe connects local_port peer_addr src rest before after h.1)
    ∙ ap
        (λ n. (
          repeated n (probe connects local_port peer_addr),
          if connects peer_addr then connected peer_addr else connect_failed,
        ))
        (next (ticks before))
  where
    next : (n : ℕ) → suc (n + 3) ≡ suc n + 3
    next n = omega arith
punch_loop-probe connects local_port peer_addr src rest (received bytes from ∷ before) after h =
    rw (idle_invalid bytes h.0)
      (punch_loop-probe connects local_port peer_addr src rest before after h.1)
punch_loop-probe connects local_port peer_addr src rest (recv_error ∷ before) after h =
    punch_loop-probe connects local_port peer_addr src rest before after h.1
punch_loop-probe connects local_port peer_addr src rest (timed_out ∷ before) after h =
    absurd (ground arith)

-- ===== src/Crypto/Noise/Handshake.antt =====
-- crates/rdesk_crypto/src/noise.rs: the two sides of a handshake, and the messages between them.
use rdesk.Prelude.{
  ℕ, suc, ◌+◌, ◌≤◌, ◌≡◌, refl, Option, none, some, List, [], ◌∷◌, ◌++◌, arith, length, Bytes,
}
use rdesk.Crypto.Noise.{
  max_message_len, Snow, Channel, ok, build_initiator, build_responder, handshake_write,
  handshake_read, encrypt, decrypt, complete_handshake_initiator, complete_handshake_responder,
}

-- A channel with a script: what is to come, and what was sent.
unfoldable pub scripted_send : Bytes → List Bytes × List Bytes → Option (List Bytes × List Bytes)
scripted_send message (coming, sent) = some (coming, sent ++ message ∷ [])

unfoldable pub scripted_recv : List Bytes × List Bytes → Option (Bytes × (List Bytes × List Bytes))
scripted_recv ([], sent) = none
scripted_recv (message ∷ coming, sent) = some (message, (coming, sent))

abbrev pub Script : Channel
Script = record {
  State = List Bytes × List Bytes;
  send_fn = scripted_send;
  recv_fn = scripted_recv;
}

-- What `snow` documents: `Before n` relates the states of the two sides when `n` messages have gone.
-- A side whose turn it is can write its message, and the other side can read it; after three
-- messages both turn into the two ends of a transport, where what one end seals the other unseals.
pub record IsSnow (S : Snow) : Type 1 where
  pub After : ℕ → S.HandshakeState → S.HandshakeState → Type 0
  pub Ends : S.TransportState → S.TransportState → Type 0
  pub begin_lem :
      (i r : Bytes)
      → length i ≡ 32
      → length r ≡ 32
      → (a : S.HandshakeState) × (b : S.HandshakeState) × (S.new_initiator i ≡ some a)
        × (S.new_responder r ≡ some b)
        × After 0 a b
  pub turn_lem :
      (n : ℕ) (a b : S.HandshakeState)
      → suc n ≤ 3
      → After n a b
      → (m : Bytes) × (p : Bytes) × (a' : S.HandshakeState) × (b' : S.HandshakeState)
        × (S.write_message [] max_message_len a ≡ some (m, a'))
        × (S.read_message m max_message_len b ≡ some (p, b'))
        × After (suc n) b' a'
  pub end_lem :
      (a b : S.HandshakeState)
      → After 3 a b
      → (s : S.TransportState) × (t : S.TransportState) × (S.into_transport_mode a ≡ some s)
        × (S.into_transport_mode b ≡ some t)
        × Ends s t
  pub seal_lem :
      (plain cipher : Bytes) (s s' t : S.TransportState)
      → Ends s t
      → S.seal plain (length plain + 16) s ≡ some (cipher, s')
      → (t' : S.TransportState) × (S.unseal cipher (length cipher) t ≡ some (plain, t'))
        × Ends s' t'

-- A handshake that has been carried through: the messages, and the two sessions.
pub record Carried (S : Snow) (snow : IsSnow S) (i r : Bytes) : Type 0 where
  pub initiator : S.HandshakeState
  pub responder : S.HandshakeState
  pub msg1 : Bytes
  pub msg2 : Bytes
  pub msg3 : Bytes
  pub near : S.TransportState
  pub far : S.TransportState
  pub built_initiator : build_initiator S i ≡ ok initiator
  pub built_responder : build_responder S r ≡ ok responder
  pub initiator_run :
      complete_handshake_initiator S Script initiator (msg2 ∷ [], [])
      ≡ ok (near, ([], msg1 ∷ msg3 ∷ []))
  pub responder_run :
      complete_handshake_responder S Script responder (msg1 ∷ msg3 ∷ [], [])
      ≡ ok (far, ([], msg2 ∷ []))
  pub ends : snow.Ends far near

module _ (S : Snow) (snow : IsSnow S) where
  -- If `snow` behaves as `IsSnow` says, two keys of 32 bytes carry the handshake through: each
  -- side sends what the other is waiting for, in that order and no more, and both end in the two
  -- sessions of one transport.
  pub handshake_completes : (i r : Bytes) → length i ≡ 32 → length r ≡ 32 → Carried S snow i r
  unfolding build_initiator build_responder complete_handshake_initiator
      complete_handshake_responder handshake_write handshake_read scripted_send scripted_recv
  handshake_completes i r hi hr =
      let b = snow.begin_lem i r hi hr in
      let t1 = snow.turn_lem 0 b.0 b.1 (omega arith) b.4 in
      let t2 = snow.turn_lem 1 t1.3 t1.2 (omega arith) t1.6 in
      let t3 = snow.turn_lem 2 t2.3 t2.2 (omega arith) t2.6 in
      let e = snow.end_lem t3.3 t3.2 t3.6 in
      record {
        initiator = b.0;
        responder = b.1;
        msg1 = t1.0;
        msg2 = t2.0;
        msg3 = t3.0;
        near = e.1;
        far = e.0;
        built_initiator = rw (hi, b.2) refl;
        built_responder = rw (hr, b.3) refl;
        initiator_run = rw (t1.4, t2.5, t3.4, e.3) refl;
        responder_run = rw (t1.5, t2.4, t3.5, e.2) refl;
        ends = e.4;
      }

  -- A message that one end of a transport encrypts, the other end decrypts, and they stay its ends.
  pub decrypt-encrypt :
      (plain cipher : Bytes) (s s' t : S.TransportState)
      → snow.Ends s t
      → encrypt S s plain ≡ ok (cipher, s')
      → (t' : S.TransportState) × (decrypt S t cipher ≡ ok (plain, t')) × snow.Ends s' t'
  unfolding encrypt decrypt
  decrypt-encrypt plain cipher s s' t ends e =
      let d = snow.seal_lem plain cipher s s' t ends (ground arith) in (d.0, rw d.1 refl, d.2)

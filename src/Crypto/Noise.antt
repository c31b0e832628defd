-- ===== src/Crypto/Noise.antt =====
-- crates/rdesk_crypto/src/noise.rs: the handshake of three messages, and the session it ends in.
--
-- `snow` stands outside: a `Snow` has its states and calls. A call that writes into a buffer is given
-- the buffer's size and gives the bytes that it wrote. `send_fn` and `recv_fn` are the calls of a
-- `Channel`. Where a call fails, the caller gets the error and keeps nothing.
pub mod Handshake
use rdesk.Prelude.{
  ℕ, ◌+◌, not, ◌==◌, if◌then◌else◌, Bool, Option, none, some, List, [], length, Bytes,
}

-- `MAX_MESSAGE_LEN`.
abbrev pub max_message_len : ℕ
max_message_len = 65535

pub record Snow : Type 1 where
  pub HandshakeState : Type 0
  pub TransportState : Type 0
  pub new_initiator : Bytes → Option HandshakeState
  pub new_responder : Bytes → Option HandshakeState
  pub write_message : Bytes → ℕ → HandshakeState → Option (Bytes × HandshakeState)
  pub read_message : Bytes → ℕ → HandshakeState → Option (Bytes × HandshakeState)
  pub into_transport_mode : HandshakeState → Option TransportState
  pub seal : Bytes → ℕ → TransportState → Option (Bytes × TransportState)
  pub unseal : Bytes → ℕ → TransportState → Option (Bytes × TransportState)

pub record Channel : Type 1 where
  pub State : Type 0
  pub send_fn : Bytes → State → Option State
  pub recv_fn : State → Option (Bytes × State)

pub data CryptoError : Type 0 where
  invalid_key : ℕ → CryptoError
  build_failed write_failed read_failed transport_failed : CryptoError
  encryption decryption channel_failed : CryptoError

pub data CryptoResult {ℓ} (A : Type ℓ) : Type ℓ where
  ok : A → CryptoResult A
  err : CryptoError → CryptoResult A

abbrev pub or_error {ℓ} : {A : Type ℓ} → CryptoError → Option A → CryptoResult A
or_error e none = err e
or_error e (some a) = ok a

infixl 20 ◌>>=◌
abbrev pub ◌>>=◌ {ℓ κ} :
    {A : Type ℓ} {B : Type κ} → CryptoResult A → (A → CryptoResult B) → CryptoResult B
err e >>= f = err e
ok a >>= f = f a

-- `validate_key_length`, in front of what needs the key.
abbrev pub with_valid_key {ℓ} : {A : Type ℓ} → Bytes → CryptoResult A → CryptoResult A
with_valid_key key next = if not (length key == 32) then err (invalid_key (length key)) else next

module _ (S : Snow) where
  unfoldable pub build_initiator : Bytes → CryptoResult S.HandshakeState
  build_initiator key = with_valid_key key (or_error build_failed (S.new_initiator key))

  unfoldable pub build_responder : Bytes → CryptoResult S.HandshakeState
  build_responder key = with_valid_key key (or_error build_failed (S.new_responder key))

  unfoldable pub handshake_write :
      S.HandshakeState → Bytes → ℕ → CryptoResult (Bytes × S.HandshakeState)
  handshake_write state payload size = or_error write_failed (S.write_message payload size state)

  unfoldable pub handshake_read :
      S.HandshakeState → Bytes → ℕ → CryptoResult (Bytes × S.HandshakeState)
  handshake_read state message size = or_error read_failed (S.read_message message size state)

  unfoldable pub encrypt : S.TransportState → Bytes → CryptoResult (Bytes × S.TransportState)
  encrypt transport plaintext =
      or_error encryption (S.seal plaintext (length plaintext + 16) transport)

  unfoldable pub decrypt : S.TransportState → Bytes → CryptoResult (Bytes × S.TransportState)
  decrypt transport ciphertext =
      or_error decryption (S.unseal ciphertext (length ciphertext) transport)

  module _ (C : Channel) where
    unfoldable pub complete_handshake_initiator :
        S.HandshakeState → C.State → CryptoResult (S.TransportState × C.State)
    unfolding handshake_write handshake_read
    complete_handshake_initiator state channel = do
      (msg1, state) ← handshake_write state [] max_message_len
      channel ← or_error channel_failed (C.send_fn msg1 channel)
      (msg2, channel) ← or_error channel_failed (C.recv_fn channel)
      (payload, state) ← handshake_read state msg2 max_message_len
      (msg3, state) ← handshake_write state [] max_message_len
      channel ← or_error channel_failed (C.send_fn msg3 channel)
      transport ← or_error transport_failed (S.into_transport_mode state)
      ok (transport, channel)

    unfoldable pub complete_handshake_responder :
        S.HandshakeState → C.State → CryptoResult (S.TransportState × C.State)
    unfolding handshake_write handshake_read
    complete_handshake_responder state channel = do
      (msg1, channel) ← or_error channel_failed (C.recv_fn channel)
      (payload1, state) ← handshake_read state msg1 max_message_len
      (msg2, state) ← handshake_write state [] max_message_len
      channel ← or_error channel_failed (C.send_fn msg2 channel)
      (msg3, channel) ← or_error channel_failed (C.recv_fn channel)
      (payload3, state) ← handshake_read state msg3 max_message_len
      transport ← or_error transport_failed (S.into_transport_mode state)
      ok (transport, channel)

-- ===== src/Net/Stream/Messages.antt =====
-- crates/rdesk_net/src/quic/stream.rs: the two ends of a stream.
use rdesk.Prelude.{
  ℕ, ◌%◌, ◌≤◌, ◌≡◌, refl, sym, ap, ◌∙◌, some, [], ◌∷◌, ◌++◌, arith, length, take, drop, Bytes, be32,
  from_be-be32, append_assoc, length-take, take-drop, append-cancel, Option-cases, inl, inr,
}
use rdesk.Net.Stream.{
  Transport, StreamType, control, video, file, chat, as_u8, from_u8, ok, max_message_size,
  open_typed_stream, accept_stream, read_tag, send_message, recv_message, recv_body,
}

-- What `quinn` documents of the two halves: `write_all` appends to what is written, and
-- `read_exact` fills its buffer with the bytes that come next, if so many come.
pub record IsOrdered (T : Transport) : Type 0 where
  pub written : T.SendStream → Bytes
  pub coming : T.RecvStream → Bytes
  pub write_lem :
      (bytes : Bytes) (s t : T.SendStream)
      → T.write_all bytes s ≡ some t
      → written t ≡ written s ++ bytes
  pub read_lem :
      (bytes rest : Bytes) (r : T.RecvStream)
      → coming r ≡ bytes ++ rest
      → (r' : T.RecvStream) × (T.read_exact (length bytes) r ≡ some (bytes, r'))
        × (coming r' ≡ rest)

from_u8-as_u8 : (stream_type : StreamType) → from_u8 (as_u8 stream_type) ≡ some stream_type
unfolding from_u8 as_u8
from_u8-as_u8 control = refl
from_u8-as_u8 video = refl
from_u8-as_u8 file = refl
from_u8-as_u8 chat = refl

module _ (T : Transport) where
  -- The writes of a message that is sent.
  sent_writes :
      (s t : T.SendStream) (bytes : Bytes)
      → send_message T s bytes ≡ ok t
      → (s' : T.SendStream) × (T.write_all (be32 (length bytes % 4294967296)) s ≡ some s')
        × (T.write_all bytes s' ≡ some t)
        × (length bytes % 4294967296 ≤ max_message_size)
  unfolding send_message
  sent_writes s t bytes e = elim (Option-cases (T.write_all (be32 (length bytes % 4294967296)) s)) [
    | inl n ↦ absurd (ground arith)
    | inr (s', w) ↦ (s', w, ground arith, ground arith)
  ]

  read_message :
      (r r₁ r₂ : T.RecvStream) (n : ℕ) (bytes : Bytes)
      → n ≤ max_message_size
      → T.read_exact 4 r ≡ some (be32 n, r₁)
      → T.read_exact n r₁ ≡ some (bytes, r₂)
      → recv_message T r ≡ ok (bytes, r₂)
  unfolding recv_message recv_body
  read_message r r₁ r₂ n bytes h head body =
      let e = from_be-be32 n (omega arith) in rw (head, e) (ground (arith, body))

  module _ (ordered : IsOrdered T) where
    recv_message-coming :
        (r : T.RecvStream) (bytes rest : Bytes)
        → length bytes ≤ max_message_size
        → ordered.coming r ≡ be32 (length bytes) ++ (bytes ++ rest)
        → (r' : T.RecvStream) × (recv_message T r ≡ ok (bytes, r')) × (ordered.coming r' ≡ rest)
    recv_message-coming r bytes rest h c =
        let head = ordered.read_lem (be32 (length bytes)) (bytes ++ rest) r c in
        let body = ordered.read_lem bytes rest head.0 head.2 in
        (body.0, read_message r head.0 body.0 (length bytes) bytes h head.1 body.1, body.2)

    -- What the receiver of a message that was sent reads: as much of it as the prefix tells.
    sent_arrives :
        (s t : T.SendStream) (r : T.RecvStream) (bytes rest : Bytes)
        → send_message T s bytes ≡ ok t
        → ordered.written s ++ ordered.coming r ≡ ordered.written t ++ rest
        → ordered.coming r ≡ be32 (length bytes % 4294967296) ++ (bytes ++ rest)
    sent_arrives s t r bytes rest sent flow =
        let w = sent_writes s t bytes sent in
        let head = be32 (length bytes % 4294967296) in
        let e : ordered.written t ≡ ordered.written s ++ (head ++ bytes) =
          ordered.write_lem bytes w.0 t w.2
          ∙ ap (λ l. l ++ bytes) (ordered.write_lem head s w.0 w.1)
          ∙ append_assoc (ordered.written s) head bytes in
        append-cancel (ordered.written s)
          (flow ∙ ap (λ l. l ++ rest) e ∙ append_assoc (ordered.written s) (head ++ bytes) rest)

    -- If the streams keep the order of bytes as `IsOrdered` says, and the receiver gets what was
    -- written from the message on: a message that `send_message` does not refuse, of whatever
    -- length, `recv_message` reads as its first bytes, as many as the length's low 32 bits tell,
    -- and it leaves the others on the stream.
    pub recv_message-send_message :
        (s t : T.SendStream) (r : T.RecvStream) (bytes rest : Bytes)
        → send_message T s bytes ≡ ok t
        → ordered.written s ++ ordered.coming r ≡ ordered.written t ++ rest
        → (r' : T.RecvStream) × (recv_message T r ≡ ok (take (length bytes % 4294967296) bytes, r'))
          × (ordered.coming r' ≡ drop (length bytes % 4294967296) bytes ++ rest)
    recv_message-send_message s t r bytes rest sent flow =
        let w = sent_writes s t bytes sent in
        let n = length bytes % 4294967296 in
        let l : length (take n bytes) ≡ n = omega (arith, length-take n bytes) in
        let cut : bytes ++ rest ≡ take n bytes ++ (drop n bytes ++ rest) =
          ap (λ b. b ++ rest) (sym (take-drop n bytes))
          ∙ append_assoc (take n bytes) (drop n bytes) rest in
        let c : ordered.coming r
            ≡ be32 (length (take n bytes)) ++ (take n bytes ++ (drop n bytes ++ rest)) =
          rw (l, sym cut) (sent_arrives s t r bytes rest sent flow) in
        recv_message-coming r (take n bytes) (drop n bytes ++ rest) (omega (arith, w.3)) c

    -- A stream that one end opened with a type, the other end accepts with that type, where the
    -- stream that it was made of had nothing written on it.
    pub accept_stream-open_typed_stream :
        (c d : T.Connection) (stream_type : StreamType)
        → (s₀ s s₁ : T.SendStream) (r r₁ : T.RecvStream) (rest : Bytes) → T.open_bi c ≡ some (s₀, r)
        → ordered.written s₀ ≡ []
        → open_typed_stream T stream_type c ≡ ok (s, r)
        → T.accept_bi d ≡ some (s₁, r₁)
        → ordered.coming r₁ ≡ ordered.written s ++ rest
        → (r₂ : T.RecvStream) × (accept_stream T d ≡ ok (stream_type, s₁, r₂))
          × (ordered.coming r₂ ≡ rest)
    unfolding open_typed_stream accept_stream read_tag
    accept_stream-open_typed_stream c d stream_type s₀ s s₁ r r₁ rest opened clean typed accepted
          flow =
        let w : T.write_all (as_u8 stream_type ∷ []) s₀ ≡ some s = ground arith in
        let tag : ordered.written s ≡ as_u8 stream_type ∷ [] =
          ordered.write_lem (as_u8 stream_type ∷ []) s₀ s w ∙ rw clean refl in
        let next = ordered.read_lem (as_u8 stream_type ∷ []) rest r₁ (flow ∙ rw tag refl) in
        (next.0, rw (accepted, next.1, from_u8-as_u8 stream_type) refl, next.2)

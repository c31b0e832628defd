-- ===== src/Common/Codec/Streams.antt =====
-- crates/rdesk_common/src/bytes_codec.rs: a sender and a reader at the two ends of a stream.
use rdesk.Prelude.{
  ◌%◌, ◌<◌, ◌≡◌, refl, sym, ap, ◌∙◌, Bool, true, some, ltb, List, [], ◌∷◌, ◌++◌, arith, length,
  Bytes, be32, append_assoc, append-nil, concat, length-append, Bool-cases, inl, inr, leb, keep,
}
use rdesk.Common.Codec.{encode_message, decode_message, BytesCodec, encode}
use rdesk.Common.Codec.Chunks.{receive, receive_chunks}
use rdesk.Common.Codec.Frames.{
  drain, drain_nothing, drain_frame, decode-framed, peek-frame, split-frame,
}

-- A sender that writes messages one after the other, and goes on where one is refused.
unfoldable pub encode_all : BytesCodec → Bytes → List Bytes → Bytes
encode_all codec buf [] = buf
encode_all codec buf (msg ∷ msgs) = encode_all codec (encode codec msg buf).1 msgs

-- Whether a message is within the limit.
abbrev pub fits : BytesCodec → Bytes → Bool
fits codec msg = leb (length msg) codec.max_frame_length

module _ (codec : BytesCodec) (small : codec.max_frame_length < 4294967296) where
  encode_all_onto :
      (buf : Bytes) (msgs : List Bytes)
      → encode_all codec buf msgs ≡ buf ++ encode_all codec [] msgs
  unfolding encode_all encode
  encode_all_onto buf [] = sym (append-nil buf)
  encode_all_onto buf (msg ∷ msgs) = elim (Bool-cases (ltb codec.max_frame_length (length msg))) [
    | inl e ↦ rw e (encode_all_onto buf msgs)
    | inr e ↦
        let sent = be32 (length msg % 4294967296) ++ msg in
        rw e (
          encode_all_onto (buf ++ sent) msgs
          ∙ append_assoc buf sent (encode_all codec [] msgs)
          ∙ ap (λ l. buf ++ l) (sym (encode_all_onto sent msgs)))
  ]

  -- The frames in what a sender wrote are the messages that were within the limit, in order.
  drain_encoded :
      (msgs : List Bytes) → drain codec (encode_all codec [] msgs) ≡ (keep (fits codec) msgs, [])
  unfolding encode_all encode
  drain_encoded [] = drain_nothing codec [] 0 (omega arith)
  drain_encoded (msg ∷ msgs) = elim (Bool-cases (ltb codec.max_frame_length (length msg))) [
    | inl e ↦ rw (e, encode_all) (ground (arith, drain_encoded msgs))
    | inr e ↦
        let n : length msg % 4294967296 ≡ length msg = ground arith in
        let rest = encode_all codec [] msgs in
        let d = decode-framed codec msg rest (ground arith) (ground arith) in
        let k : fits codec msg ≡ true = ground arith in
        rw
          (
            k,
            e,
            n,
            encode_all_onto (be32 (length msg) ++ msg) msgs,
            drain_frame codec (be32 (length msg) ++ (msg ++ rest)) msg rest d,
            drain_encoded msgs,
          )
          refl
  ]

  -- With a limit below 2 ^ 32: a sender's messages, cut into chunks anywhere on the way, come out
  -- as they went in, less those that the limit refuses, and nothing is left in the reader's
  -- buffer.
  pub receive-encode_all :
      (msgs chunks : List Bytes)
      → concat chunks ≡ encode_all codec [] msgs
      → receive codec [] chunks ≡ (keep (fits codec) msgs, [])
  receive-encode_all msgs chunks e = receive_chunks codec chunks ∙ rw e (drain_encoded msgs)

-- What `encode_message` writes, `decode_message` takes off the front of a buffer, whatever comes
-- behind it, if the length fits in the prefix.
pub decode_message-encode_message :
    (msg rest : Bytes)
    → length msg < 4294967296
    → decode_message (encode_message msg ++ rest) ≡ (some msg, rest)
unfolding decode_message encode_message
decode_message-encode_message msg rest h =
    let n : length msg % 4294967296 ≡ length msg = omega arith in
    rw (n, peek-frame (length msg) (msg ++ rest) h)
      (ground (arith, split-frame msg rest (length msg), length-append msg rest))

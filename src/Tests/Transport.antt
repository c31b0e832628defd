-- ===== src/Tests/Transport.antt =====
-- The theorems on frames, streams and the discovery of addresses, at concrete data.
use rdesk.Prelude.{be16, text_eq}
use rdesk.Common.Codec.{encode}
use rdesk.Prelude.{
  ℕ, ◌≡◌, refl, true, false, ltb, if◌then◌else◌, Option, none, some, [], ◌∷◌, ◌++◌, arith, length,
  take, drop, take-append_self, drop-append_self, length-append, Bytes, concat,
}
use rdesk.Common.Codec.{BytesCodec}
use rdesk.Common.Codec.Chunks.{receive}
use rdesk.Common.Codec.Streams.{encode_all, receive-encode_all}
use rdesk.Net.Stream.{Transport, ok, send_message, recv_message}
use rdesk.Net.Stream.Messages.{IsOrdered, recv_message-send_message}
use rdesk.Net.Stun
use rdesk.Net.Stun.{SocketAddr, parse_binding_response, magic_cookie}
use rdesk.Net.Stun.Answers.{IsAnswer, parse_binding_response-IsAnswer}
use rdesk.Net.Stun.Masks.{IsIpv4}
use rdesk.Net.Stun.RoundTrip.{
  Attribute, IsOther, response, encode_attributes, xor_attribute, parse_binding_response-response,
}
use rdesk.Net.HolePunch.{
  tick, received, recv_error, punch_loop, connected, repeated, punch_loop-probe,
}

abbrev codec : BytesCodec
codec = record { max_frame_length = 3 }

-- Three messages, the second above the limit, cut inside a prefix and inside a payload.
receive-encode_all_example :
    receive codec [] ((0 ∷ 0 ∷ []) ∷ (0 ∷ 2 ∷ 1 ∷ []) ∷ (2 ∷ 0 ∷ 0 ∷ 0 ∷ 1 ∷ 7 ∷ []) ∷ [])
    ≡ ((1 ∷ 2 ∷ []) ∷ (7 ∷ []) ∷ [], [])
unfolding encode_all concat encode
receive-encode_all_example =
    receive-encode_all codec (omega arith) ((1 ∷ 2 ∷ []) ∷ (9 ∷ 9 ∷ 9 ∷ 9 ∷ []) ∷ (7 ∷ []) ∷ [])
      ((0 ∷ 0 ∷ []) ∷ (0 ∷ 2 ∷ 1 ∷ []) ∷ (2 ∷ 0 ∷ 0 ∷ 0 ∷ 1 ∷ 7 ∷ []) ∷ []) refl

-- A transport whose streams are the bytes that are written and those that are to come.
abbrev read_bytes : ℕ → Bytes → Option (Bytes × Bytes)
read_bytes n r = if ltb (length r) n then none else some (take n r, drop n r)

abbrev bytes_transport : Transport
bytes_transport = record {
  Connection = Unit {0};
  SendStream = Bytes;
  RecvStream = Bytes;
  open_bi = λ c. some ([], []);
  accept_bi = λ c. some ([], []);
  write_all = λ bytes s. some (s ++ bytes);
  read_exact = read_bytes;
}

written : {a b : Bytes} → some a ≡ some b → b ≡ a
written e = cc e

reads :
    (bytes rest r : Bytes)
    → r ≡ bytes ++ rest
    → (r' : Bytes) × (read_bytes (length bytes) r ≡ some (bytes, r')) × (r' ≡ rest)
reads bytes rest r e =
    let enough : ltb (length (bytes ++ rest)) (length bytes) ≡ false =
      ground (arith, length-append bytes rest) in
    (rest, rw (e, enough, take-append_self bytes rest, drop-append_self bytes rest) refl, refl)

abbrev bytes_ordered : IsOrdered bytes_transport
bytes_ordered = record {
  written = λ s. s;
  coming = λ r. r;
  write_lem = λ bytes s t e. written e;
  read_lem = reads;
}

recv_message-send_message_example :
    (r : Bytes) × (recv_message bytes_transport (0 ∷ 0 ∷ 0 ∷ 2 ∷ 8 ∷ 9 ∷ 5 ∷ [])
      ≡ ok (8 ∷ 9 ∷ [], r))
    × (r ≡ 5 ∷ [])
unfolding send_message
recv_message-send_message_example =
    recv_message-send_message bytes_transport bytes_ordered [] (0 ∷ 0 ∷ 0 ∷ 2 ∷ 8 ∷ 9 ∷ [])
      (0 ∷ 0 ∷ 0 ∷ 2 ∷ 8 ∷ 9 ∷ 5 ∷ []) (8 ∷ 9 ∷ []) (5 ∷ []) refl refl

abbrev transaction : Bytes
transaction = 1 ∷ 2 ∷ 3 ∷ 4 ∷ 5 ∷ 6 ∷ 7 ∷ 8 ∷ 9 ∷ 10 ∷ 11 ∷ 12 ∷ []

abbrev address : SocketAddr
address = record { ip = 192 ∷ 0 ∷ 2 ∷ 1 ∷ []; port = 50000 }

-- An attribute that names the software, with one byte of padding.
abbrev software : Attribute
software = record { type = 0x8022; value = b'a' ∷ b'b' ∷ b'c' ∷ []; padding = 0 ∷ [] }

abbrev attributes : Bytes
attributes = encode_attributes (software ∷ []) (xor_attribute 192 0 2 1 50000 ++ [])

address-IsIpv4 : IsIpv4 address 192 0 2 1
address-IsIpv4 = record {
  octets = refl;
  bytes = (omega arith, (omega arith, (omega arith, (omega arith, tt))));
  port16 = omega arith;
}

software-IsOther : IsOther software
software-IsOther = record {
  type16 = omega arith;
  not_xor = λ e. omega arith;
  not_plain = λ e. omega arith;
  length16 = omega arith;
  aligned = refl;
}

parse_binding_response-response_example :
    parse_binding_response (response transaction attributes) transaction ≡ Stun.ok address
unfolding encode_attributes
parse_binding_response-response_example =
    parse_binding_response-response address 192 0 2 1 transaction (software ∷ []) [] address-IsIpv4
      refl (software-IsOther, tt) (omega arith)

parse_binding_response-IsAnswer_example : IsAnswer (response transaction attributes) transaction
unfolding parse_binding_response encode_attributes text_eq
parse_binding_response-IsAnswer_example =
    parse_binding_response-IsAnswer (response transaction attributes) transaction address refl

punch_loop-probe_example :
    punch_loop
      (λ peer. true)
      40000
      address
      (tick
        ∷ recv_error
        ∷ received (1 ∷ []) address
        ∷ received (b'R' ∷ b'D' ∷ b'P' ∷ b'N' ∷ []) (record address { port = 7 })
        ∷ tick
        ∷ [])
    ≡ (
      repeated 4
          (record { contents = b'R' ∷ b'D' ∷ b'P' ∷ b'N' ∷ be16 40000; destination = address }),
      connected address,
    )
punch_loop-probe_example =
    punch_loop-probe (λ peer. true) 40000 address (record address { port = 7 }) []
      (tick ∷ recv_error ∷ received (1 ∷ []) address ∷ []) (tick ∷ [])
      (tt, (tt, ((λ rest e. ground arith), tt)))

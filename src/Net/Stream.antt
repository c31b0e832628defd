-- ===== src/Net/Stream.antt =====
-- crates/rdesk_net/src/quic/stream.rs: typed streams, and messages with their length in front.
--
-- `quinn` stands outside the repository: its connections and the two halves of a stream are types of
-- a `Transport`, and its calls are operations of it, each of which fails or gives the next state.
pub mod Messages
use rdesk.Prelude.{
  ℕ, ◌*◌, ◌%◌, Option, none, some, ltb, ◌==◌, if◌then◌else◌, length, [], ◌∷◌, Bytes, be32, from_be,
}

-- `MAX_MESSAGE_SIZE`.
abbrev pub max_message_size : ℕ
max_message_size = 16 * 1024 * 1024

pub data StreamType : Type 0 where
  control video file chat : StreamType

-- `stream_type as u8`.
unfoldable pub as_u8 : StreamType → ℕ
as_u8 control = 0
as_u8 video = 1
as_u8 file = 2
as_u8 chat = 3

unfoldable pub from_u8 : ℕ → Option StreamType
from_u8 v =
    if v == 0
    then some control
    else if v == 1
    then some video
    else if v == 2
    then some file
    else if v == 3
    then some chat
    else none

pub record Transport : Type 1 where
  pub Connection : Type 0
  pub SendStream : Type 0
  pub RecvStream : Type 0
  pub open_bi : Connection → Option (SendStream × RecvStream)
  pub accept_bi : Connection → Option (SendStream × RecvStream)
  pub write_all : Bytes → SendStream → Option SendStream
  -- `read_exact` into a buffer of that many bytes.
  pub read_exact : ℕ → RecvStream → Option (Bytes × RecvStream)

-- The errors, with the numbers that their texts tell.
pub data StreamError : Type 0 where
  open_failed accept_failed : StreamError
  tag_write_failed tag_read_failed : StreamError
  unknown_tag : Bytes → StreamError
  message_too_large incoming_too_large : ℕ → StreamError
  write_failed read_failed : StreamError

pub data Outcome {ℓ} (A : Type ℓ) : Type ℓ where
  ok : A → Outcome A
  err : StreamError → Outcome A

abbrev pub or_error {ℓ} : {A : Type ℓ} → StreamError → Option A → Outcome A
or_error e none = err e
or_error e (some a) = ok a

infixl 20 ◌>>=◌
abbrev pub ◌>>=◌ {ℓ κ} : {A : Type ℓ} {B : Type κ} → Outcome A → (A → Outcome B) → Outcome B
err e >>= f = err e
ok a >>= f = f a

-- The type that a tag of one byte tells.
abbrev pub tagged : Bytes → Option StreamType
tagged [] = none
tagged (v ∷ tag) = from_u8 v

module _ (T : Transport) where
  unfoldable pub open_typed_stream :
      StreamType → T.Connection → Outcome (T.SendStream × T.RecvStream)
  unfolding as_u8
  open_typed_stream stream_type connection = do
    (send, recv) ← or_error open_failed (T.open_bi connection)
    send ← or_error tag_write_failed (T.write_all (as_u8 stream_type ∷ []) send)
    ok (send, recv)

  unfoldable pub open_control_stream : T.Connection → Outcome (T.SendStream × T.RecvStream)
  unfolding open_typed_stream
  open_control_stream connection = open_typed_stream control connection

  unfoldable pub open_video_stream : T.Connection → Outcome (T.SendStream × T.RecvStream)
  unfolding open_typed_stream
  open_video_stream connection = open_typed_stream video connection

  unfoldable pub open_file_stream : T.Connection → Outcome (T.SendStream × T.RecvStream)
  unfolding open_typed_stream
  open_file_stream connection = open_typed_stream file connection

  unfoldable pub open_chat_stream : T.Connection → Outcome (T.SendStream × T.RecvStream)
  unfolding open_typed_stream
  open_chat_stream connection = open_typed_stream chat connection

  -- `accept_stream`, from the stream that the connection accepted on.
  unfoldable pub read_tag :
      T.SendStream × T.RecvStream → Outcome (StreamType × T.SendStream × T.RecvStream)
  unfolding from_u8
  read_tag halves = do
    (tag, recv) ← or_error tag_read_failed (T.read_exact 1 halves.1)
    stream_type ← or_error (unknown_tag tag) (tagged tag)
    ok (stream_type, halves.0, recv)

  unfoldable pub accept_stream : T.Connection → Outcome (StreamType × T.SendStream × T.RecvStream)
  unfolding read_tag
  accept_stream connection = do
    halves ← or_error accept_failed (T.accept_bi connection)
    read_tag halves

  unfoldable pub send_message : T.SendStream → Bytes → Outcome T.SendStream
  send_message stream bytes =
      let len = length bytes % 4294967296 in
      if ltb max_message_size len then err (message_too_large len) else do
        stream ← or_error write_failed (T.write_all (be32 len) stream)
        or_error write_failed (T.write_all bytes stream)

  -- `recv_message`, once the length has been read.
  unfoldable pub recv_body : ℕ → T.RecvStream → Outcome (Bytes × T.RecvStream)
  recv_body len stream =
      if ltb max_message_size len
      then err (incoming_too_large len)
      else or_error read_failed (T.read_exact len stream)

  unfoldable pub recv_message : T.RecvStream → Outcome (Bytes × T.RecvStream)
  unfolding recv_body
  recv_message stream = do
    (len_buf, stream) ← or_error read_failed (T.read_exact 4 stream)
    recv_body (from_be len_buf) stream

-- ===== src/Common/Codec.antt =====
-- crates/rdesk_common/src/bytes_codec.rs: messages with their length in front, on a buffer.
--
-- A buffer is the list of its bytes. A call that takes the buffer by `&mut` returns the buffer it
-- leaves. A length is a `usize` of 64 bits, which no list of bytes here reaches; `as u32` keeps the
-- low 32 bits.
pub mod Frames
pub mod Chunks
pub mod Streams
use rdesk.Prelude.{
  ℕ, ◌+◌, ◌*◌, ◌%◌, Option, none, some, ltb, if◌then◌else◌, ◌++◌, length, take, drop, Bytes, be32,
  from_be,
}

-- `LENGTH_PREFIX_SIZE`.
abbrev pub length_prefix_size : ℕ
length_prefix_size = 4

unfoldable pub encode_message : Bytes → Bytes
encode_message msg = be32 (length msg % 4294967296) ++ msg

-- `u32::from_be_bytes([buf[0], buf[1], buf[2], buf[3]])`, on a buffer that has them.
abbrev pub peek_length : Bytes → ℕ
peek_length buf = from_be (take length_prefix_size buf)

-- `buf.advance(LENGTH_PREFIX_SIZE)`, then `buf.split_to(len)`.
abbrev pub split_payload : ℕ → Bytes → Bytes × Bytes
split_payload len buf =
    (take len (drop length_prefix_size buf), drop len (drop length_prefix_size buf))

unfoldable pub decode_message : Bytes → Option Bytes × Bytes
decode_message buf =
    if ltb (length buf) length_prefix_size
    then (none, buf)
    else let len = peek_length buf in
      if ltb (length buf) (length_prefix_size + len)
      then (none, buf)
      else (some (split_payload len buf).0, (split_payload len buf).1)

pub record BytesCodec : Type 0 where
  pub max_frame_length : ℕ

pub data CodecError : Type 0 where
  frame_too_large : ℕ → ℕ → CodecError

abbrev pub default_max_frame_length : ℕ
default_max_frame_length = 16 * 1024 * 1024

unfoldable pub new : BytesCodec
new = record { max_frame_length = default_max_frame_length }

unfoldable pub with_max_frame_length : ℕ → BytesCodec
with_max_frame_length max = record { max_frame_length = max }

-- What `BytesCodec::decode` returns: `Ok(Some(payload))`, `Ok(None)` or the error.
pub data Decoded : Type 0 where
  frame : Bytes → Decoded
  incomplete : Decoded
  failed : CodecError → Decoded

-- The rest of `decode`, once the prefix is there and its length admitted.
unfoldable pub take_frame : ℕ → Bytes → Decoded × Bytes
take_frame len buf =
    if ltb (length buf) (length_prefix_size + len)
    then (incomplete, buf)
    else (frame (split_payload len buf).0, (split_payload len buf).1)

unfoldable pub decode : BytesCodec → Bytes → Decoded × Bytes
unfolding take_frame
decode codec buf =
    if ltb (length buf) length_prefix_size
    then (incomplete, buf)
    else let len = peek_length buf in
      if ltb codec.max_frame_length len
      then (failed (frame_too_large len codec.max_frame_length), buf)
      else take_frame len buf

-- `BytesCodec::encode`: the error, if any, and the output buffer.
unfoldable pub encode : BytesCodec → Bytes → Bytes → Option CodecError × Bytes
encode codec msg buf =
    if ltb codec.max_frame_length (length msg)
    then (some (frame_too_large (length msg) codec.max_frame_length), buf)
    else (none, buf ++ (be32 (length msg % 4294967296) ++ msg))

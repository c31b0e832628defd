-- ===== src/Core/Codec.antt =====
-- crates/rdesk_core/src/codec: frames as a header and compressed pixels.
--
-- `lz4_flex` stands outside: a `Compression` has the two calls of it.
pub mod RoundTrip
use rdesk.Prelude.{
  ℕ, Bool, true, false, Option, none, some, [], ◌∷◌, ◌++◌, Bytes, be32, from_be, length, take, drop,
  ltb, if◌then◌else◌,
}
use rdesk.Core.Capture.{CapturedFrame}

pub data CodecType : Type 0 where
  raw vp9 h264 h265 : CodecType

pub record DecodedFrame : Type 0 where
  pub width : ℕ
  pub height : ℕ
  pub pixels : Bytes

pub record Compression : Type 0 where
  pub compress_prepend_size : Bytes → Bytes
  pub decompress_size_prepended : Bytes → Option Bytes

abbrev pub header_len : ℕ
header_len = 9

pub data RawEncoder : Type 0 where
  raw_encoder : RawEncoder

pub data RawDecoder : Type 0 where
  raw_decoder : RawDecoder

pub data DecodeError : Type 0 where
  too_short failed_to_decompress : DecodeError

pub data Decoding : Type 0 where
  decoded : DecodedFrame → Decoding
  failed : DecodeError → Decoding

unfoldable pub encoder_type : RawEncoder → CodecType
encoder_type encoder = raw

unfoldable pub decoder_type : RawDecoder → CodecType
decoder_type decoder = raw

-- `u8::from`.
abbrev byte_of : Bool → ℕ
byte_of true = 1
byte_of false = 0

module _ (lz4 : Compression) where
  unfoldable pub encode : CapturedFrame → Bool → Bytes
  encode frame keyframe =
      be32 frame.width
      ++ be32 frame.height
      ++ (byte_of keyframe ∷ [])
      ++ lz4.compress_prepend_size frame.pixels

  unfoldable pub decode : Bytes → Bool → Decoding
  decode bytes keyframe =
      let width = from_be (take 4 bytes) in
      let height = from_be (take 4 (drop 4 bytes)) in
      if ltb (length bytes) header_len
      then failed too_short
      else elim (lz4.decompress_size_prepended (drop header_len bytes)) [
        | none ↦ failed failed_to_decompress
        | some pixels ↦ decoded (record { width = width; height = height; pixels = pixels })
      ]

-- ===== src/Core/Codec/RoundTrip.antt =====
-- crates/rdesk_core/src/codec/vpx.rs: what is encoded is decoded.
use rdesk.Prelude.{◌<◌, ◌≡◌, Bool, some, arith, Bytes, from_be-be32}
use rdesk.Core.Capture.{CapturedFrame}
use rdesk.Core.Codec.{Compression, encode, decode, decoded}

-- What `lz4_flex` documents: what is compressed is decompressed.
pub record IsCompression (lz4 : Compression) : Type 0 where
  pub decompress-compress :
      (pixels : Bytes)
      → lz4.decompress_size_prepended (lz4.compress_prepend_size pixels) ≡ some pixels

-- If the compression behaves as `IsCompression` says: a frame whose sizes are below 2 ^ 32 is
-- decoded to its sizes and its pixels, whatever the flags of the encoder and the decoder are.
pub decode-encode :
    (lz4 : Compression) (frame : CapturedFrame) (keyframe flag : Bool)
    → IsCompression lz4
    → frame.width < 4294967296
    → frame.height < 4294967296
    → decode lz4 (encode lz4 frame keyframe) flag
      ≡ decoded (record { width = frame.width; height = frame.height; pixels = frame.pixels })
unfolding decode encode
decode-encode lz4 frame keyframe flag is w h =
    let width = from_be-be32 frame.width w in
    let height = from_be-be32 frame.height h in
    let pixels = is.decompress-compress frame.pixels in ground arith

-- ===== src/Server/Sockets/Frames.antt =====
-- crates/rdesk_server/src/main.rs: a frame on its way from a host's socket to a viewer's.
use rdesk.Prelude.{
  ℕ, ◌≤◌, ◌<◌, ◌≡◌, refl, ap, ◌∙◌, Text, text_eq_refl, true, false, some, ◌++◌, arith, ltb, lt→ltb,
  length, Bytes, le32, le64, from_le-le32, from_le-le64,
}
use rdesk.Map
use rdesk.Map.Laws.{get-insert}
use rdesk.Server.State.{AppState, FrameSnapshot}
use rdesk.Server.Previews.{store_frame, broadcast}
use rdesk.Server.Sockets.{binary, host_frame, host_message}

-- What a host sends: the header and the picture.
abbrev pub upload : ℕ → ℕ → ℕ → Bytes → Bytes
upload width height timestamp_ms jpeg = le32 width ++ (le32 height ++ (le64 timestamp_ms ++ jpeg))

abbrev pub snapshot : ℕ → ℕ → ℕ → ℕ → Bytes → FrameSnapshot
snapshot now width height captured_at_ms jpeg = record {
  bytes = jpeg;
  width = width;
  height = height;
  captured_at_ms = captured_at_ms;
  relay_received_at_ms = now;
  updated_at_ms = now;
}

store_frame-frames :
    (now width height captured_at_ms : ℕ) (device_id : Text) (jpeg : Bytes) (s : AppState)
    → Map.get device_id (store_frame now device_id width height captured_at_ms jpeg s).frames
      ≡ some (snapshot now width height captured_at_ms jpeg)
unfolding store_frame broadcast
store_frame-frames now width height captured_at_ms device_id jpeg s =
    rw (get-insert {V = FrameSnapshot} device_id device_id, text_eq_refl device_id) refl

host_frame-upload :
    (now width height timestamp_ms : ℕ) (device_id : Text) (jpeg : Bytes) (s : AppState)
    → width < 4294967296
    → height < 4294967296
    → timestamp_ms < 18446744073709551616
    → ltb 0 timestamp_ms ≡ true
    → host_frame now device_id (upload width height timestamp_ms jpeg) s
      ≡ store_frame now device_id width height timestamp_ms jpeg s
unfolding host_frame
host_frame-upload now width height timestamp_ms device_id jpeg s w h t t0 =
    rw (from_le-le32 width w, from_le-le32 height h, from_le-le64 timestamp_ms t, t0) refl

host_message-whole :
    (now : ℕ) (device_id : Text) (bytes : Bytes) (s : AppState)
    → 16 ≤ length bytes
    → host_message now device_id (binary bytes) s ≡ (host_frame now device_id bytes s, true)
unfolding host_message
host_message-whole now device_id bytes s h =
    let whole : ltb (length bytes) 16 ≡ false = ground arith in rw whole refl

-- A frame that a host's socket brings, whose header tells sizes of 32 bits and a time of 64 bits
-- that is not zero, is stored with these sizes and this time, in every state: no lease is asked
-- for, and no on-demand capture.
pub host_message-upload :
    (now width height timestamp_ms : ℕ) (device_id : Text) (jpeg : Bytes) (s : AppState)
    → width < 4294967296
    → height < 4294967296
    → 0 < timestamp_ms
    → timestamp_ms < 18446744073709551616
    → let t = host_message now device_id (binary (upload width height timestamp_ms jpeg)) s in
      (Map.get device_id t.0.frames ≡ some (snapshot now width height timestamp_ms jpeg))
      × (t.1 ≡ true)
host_message-upload now width height timestamp_ms device_id jpeg s w h t0 t =
    let bytes = upload width height timestamp_ms jpeg in
    let whole = host_message-whole now device_id bytes s (omega arith) in
    let stored =
      host_frame-upload now width height timestamp_ms device_id jpeg s w h t (lt→ltb _ _ t0) in
    let same : host_message now device_id (binary bytes) s
        ≡ (store_frame now device_id width height timestamp_ms jpeg s, true) =
      whole ∙ ap (λ t. (t, true)) stored in
    rw same (store_frame-frames now width height timestamp_ms device_id jpeg s, refl)

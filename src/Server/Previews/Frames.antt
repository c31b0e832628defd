-- ===== src/Server/Previews/Frames.antt =====
-- crates/rdesk_server/src/main.rs: the upload and the fetch of frames.
use rdesk.Prelude.{
  ℕ, ◌==◌, Text, Bool, ◌&&◌, ◌||◌, not, Option, none, some, List, ◌∷◌, ltb, if◌then◌else◌, is_empty,
  is_some_and, keep_if,
}
use rdesk.Map
use rdesk.Server.State.{
  AppState, Response, success, bare, WsFrame, FrameSnapshot, ScreenDemand, is_fresh, preview_ttl_ms,
}
use rdesk.Server.Sessions.{validate_viewer, validate_host}
use rdesk.Server.Screen.{
  demand_of, put_demand, prune_screen_demand, renew_screen_lease, captures_on_demand,
}

pub record FrameUpload : Type 0 where
  pub device_id : Text
  pub host_token : Text
  pub width : ℕ
  pub height : ℕ
  pub timestamp_ms : Option ℕ
  pub capture_epoch : Option ℕ

abbrev pub or_time : ℕ → Option ℕ → ℕ
or_time now none = now
or_time now (some t) = t

-- `broadcaster.send(frame)`, if the device has a broadcaster.
unfoldable pub broadcast : Text → WsFrame → AppState → AppState
broadcast device_id frame s = elim (Map.get device_id s.frame_broadcasters) [
  | none ↦ s
  | some sent ↦ record s {
    frame_broadcasters = Map.insert device_id (frame ∷ sent) s.frame_broadcasters;
  }
]

-- Broadcasts a frame and stores it as the device's latest.
unfoldable pub store_frame : ℕ → Text → ℕ → ℕ → ℕ → List ℕ → AppState → AppState
unfolding broadcast
store_frame now device_id width height captured_at_ms bytes s =
    let s' =
      broadcast device_id
        (record {
          bytes = bytes;
          width = width;
          height = height;
          captured_at_ms = captured_at_ms;
          relay_received_at_ms = now;
        })
        s in
    record s' {
      frames =
          Map.insert device_id
            (record {
              bytes = bytes;
              width = width;
              height = height;
              captured_at_ms = captured_at_ms;
              relay_received_at_ms = now;
              updated_at_ms = now;
            })
            s'.frames;
    }

abbrev pub epoch_matches : Option ℕ → ScreenDemand → Bool
epoch_matches capture_epoch d = is_some_and (λ e. e == d.epoch) capture_epoch

-- `upload_frame` behind its checks of the host: the demand is the one that has just been pruned.
-- The response carries the server's time.
unfoldable pub receive_frame :
    ℕ → FrameUpload → List ℕ → Bool → ScreenDemand → AppState → AppState × Response ℕ
unfolding store_frame
receive_frame now query body on_demand d s =
    if on_demand && (is_empty d.viewers || not (epoch_matches query.capture_epoch d))
    then (s, bare 409)
    else (
      store_frame now query.device_id query.width query.height
          (or_time now (keep_if (λ t. ltb 0 t) query.timestamp_ms)) body s,
      success now,
    )

unfoldable pub upload_frame : ℕ → FrameUpload → List ℕ → AppState → AppState × Response ℕ
unfolding demand_of put_demand receive_frame
upload_frame now query body s =
    if validate_host now query.device_id query.host_token s
    then (let (s1, d) = prune_screen_demand now query.device_id (demand_of query.device_id s) s in
        receive_frame now query body (captures_on_demand query.device_id s) d
          (put_demand query.device_id d s1))
    else (s, bare 401)

-- The stored frame, if it is there and not too old.
unfoldable pub frame_answer : ℕ → Option FrameSnapshot → Response FrameSnapshot
frame_answer now none = bare 503
frame_answer now (some frame) =
    if is_fresh now frame.updated_at_ms preview_ttl_ms then success frame else bare 503

unfoldable pub fetch_frame : ℕ → Text → Text → AppState → AppState × Response FrameSnapshot
unfolding renew_screen_lease frame_answer
fetch_frame now device_id token s =
    let (s1, valid) = validate_viewer now device_id token s in
    let (s2, renewed) = renew_screen_lease now device_id token token s1 in
    if valid
    then (s2, if renewed then frame_answer now (Map.get device_id s2.frames) else bare 401)
    else (s1, bare 401)

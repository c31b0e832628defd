-- ===== src/Tests/Server.antt =====
-- The theorems on the relay server, at concrete states.
use rdesk.Server.Screen.{close_viewer_session}
use rdesk.Server.Screen.{host_screen_demand}
use rdesk.Prelude.{ℕ, ◌≡◌, ◌⊎◌, refl, text_eq, codes, true, false, none, some, List, [], ◌∷◌, arith}
use rdesk.Map
use rdesk.Server.State.{bare, success}
use rdesk.Server.Sessions.{validate_viewer, validate_host}
use rdesk.Server.Screen.{demand_of, prune_screen_demand, grant_lease, renew_screen_lease}
use rdesk.Server.Screen.Quiet.{IsQuiet}
use rdesk.Server.Previews.{
  RegisterPreviewRequest, register_preview, ResolvePreviewRequest, OriginHeaders, FrameUpload,
  upload_frame,
}
use rdesk.Server.Previews.Audience.{
  ScreenEvent, refreshes, uploads, closes, asks, apply, run, unwatched_has_no_frame,
}
use rdesk.Server.Previews.Epochs.{old_epoch_refused}
use rdesk.Server.Previews.Entitled.{HoldsToken, OwnsDevice}
use rdesk.Server.Previews.Renewal.{register_preview_iff}
use rdesk.Server.Screen.{screen_lease_alive}
use rdesk.Server.Sockets.{
  binary, host_message, ViewerEvent, pong, viewer_close, other_message, viewer_loop, open_ws_viewer,
}
use rdesk.Server.Sockets.Frames
use rdesk.Server.Sockets.Frames.{snapshot, host_message-upload}
use rdesk.Server.Sockets.Leases.{viewer_loop-ends}
use rdesk.Tests.Data.{host, hosting}

abbrev upload : FrameUpload
upload = record {
  device_id = codes "pc";
  host_token = codes "host";
  width = 2;
  height = 1;
  timestamp_ms = none;
  capture_epoch = some 1;
}

-- A viewer watches, the host uploads a frame, and the viewer leaves.
abbrev watched : List ScreenEvent
watched =
    refreshes 1100 (codes "pc") (codes "viewer") (codes "viewer")
    ∷ uploads 1200 upload (7 ∷ 8 ∷ [])
    ∷ closes 1300 (codes "pc") (codes "viewer")
    ∷ asks 1400 (codes "pc") (codes "host")
    ∷ []

hosting-IsQuiet : IsQuiet hosting
unfolding Map.get
hosting-IsQuiet j on alone = refl

unwatched_has_no_frame_example : Map.get (codes "pc") (run watched hosting).frames ≡ none
unfolding run apply Map.get host_screen_demand validate_host close_viewer_session validate_viewer
    upload_frame renew_screen_lease prune_screen_demand text_eq grant_lease Map.retain Map.insert
unwatched_has_no_frame_example =
    unwatched_has_no_frame watched hosting (codes "pc") hosting-IsQuiet refl refl

old_epoch_refused_example :
    let t = (renew_screen_lease 1100 (codes "pc") (codes "viewer") (codes "k") hosting).0 in
    (Map.get (codes "pc") t.frames ≡ none)
    × (((upload_frame 1200 (record upload { capture_epoch = some 0 }) (7 ∷ []) t).1 ≡ bare 409)
        ⊎ ((upload_frame 1200 (record upload { capture_epoch = some 0 }) (7 ∷ []) t).1 ≡ bare 401))
    × (Map.get
          (codes "pc")
          (upload_frame 1200 (record upload { capture_epoch = some 0 }) (7 ∷ []) t).0.frames
        ≡ none)
unfolding demand_of Map.retain Map.get text_eq renew_screen_lease validate_viewer
    prune_screen_demand
old_epoch_refused_example =
    old_epoch_refused 1100 1200 0 (codes "viewer") (codes "k")
      (record upload { capture_epoch = some 0 }) (7 ∷ []) hosting refl refl refl refl (omega arith)

abbrev intruder : RegisterPreviewRequest
intruder = record {
  device_id = codes "pc";
  auth_token = none;
  host_token = some (codes "guess");
  platform = codes "linux";
  hostname = codes "X";
  password_hash = [];
  auto_accept = true;
  trusted_viewers = [];
  on_demand_capture = false;
}

register_preview_iff_example :
    let t = register_preview 2000 (codes "new") intruder hosting in
    ((t.1 ≡ success host.host_token)
      × (HoldsToken intruder host ⊎ OwnsDevice 2000 intruder host hosting))
    ⊎ ((t.1 ≡ bare 401)
        × (t.0.previews ≡ hosting.previews)
        × ¬ (HoldsToken intruder host ⊎ OwnsDevice 2000 intruder host hosting))
unfolding Map.get text_eq
register_preview_iff_example = register_preview_iff 2000 (codes "new") intruder host hosting refl

abbrev headers : OriginHeaders
headers = record { forwarded_host = none; host = none; forwarded_proto = none }

abbrev stranger : ResolvePreviewRequest
stranger = record {
  password_hash = some (codes "guess");
  requester_id = some (codes "tv");
  auth_token = none;
  requester_hostname = none;
  requester_peer_os = none;
}

-- A frame that comes by the socket of a host that captures on demand, which nobody watches.
host_message-upload_example :
    (Map.get
        (codes "pc")
        (host_message 2000
          (codes "pc")
          (binary (Frames.upload 2 1 1900 (7 ∷ 8 ∷ [])))
          hosting).0.frames
      ≡ some (snapshot 2000 2 1 1900 (7 ∷ 8 ∷ [])))
    × ((host_message 2000 (codes "pc") (binary (Frames.upload 2 1 1900 (7 ∷ 8 ∷ []))) hosting).1
        ≡ true)
host_message-upload_example =
    host_message-upload 2000 2 1 1900 (codes "pc") (7 ∷ 8 ∷ []) hosting (omega arith) (omega arith)
      (omega arith) (omega arith)

abbrev visit : List (ℕ × ViewerEvent)
visit = (1050, other_message) ∷ (1100, pong) ∷ (1200, viewer_close) ∷ []

viewer_loop-ends_example :
    screen_lease_alive 1300
      (codes "pc")
      (codes "ws:1")
      (viewer_loop
        (codes "pc")
        (codes "viewer")
        (codes "ws:1")
        (λ s. s)
        visit
        (open_ws_viewer 1000 (codes "pc") (codes "viewer") (codes "ws:1") hosting).0).0
    ≡ false
unfolding viewer_loop screen_lease_alive Map.get open_ws_viewer validate_viewer text_eq
    renew_screen_lease prune_screen_demand Map.insert grant_lease Map.retain
viewer_loop-ends_example =
    viewer_loop-ends 1300 (codes "pc") (codes "viewer") (codes "ws:1") (λ s. s) visit
      (open_ws_viewer 1000 (codes "pc") (codes "viewer") (codes "ws:1") hosting).0 refl

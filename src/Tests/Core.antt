-- ===== src/Tests/Core.antt =====
-- The theorems on sessions, hosts, controllers and frames, at concrete data.
use rdesk.Prelude.{
  ◌≤◌, ◌≡◌, refl, true, false, none, some, List, [], ◌∷◌, codes, arith, length, All, pos,
}
use rdesk.Common.Config.{default}
use rdesk.Core.Capture
use rdesk.Core.Capture.{DisplayInfo, DesktopCapturer, CapturedFrame, wrap, capture_frame}
use rdesk.Core.Capture.Gradient.{rows_from, capture_frame_lem}
use rdesk.Core.Codec.{Compression, encode, decode, decoded}
use rdesk.Core.Codec.RoundTrip.{decode-encode}
use rdesk.Core.Hosting.{is_listening, active_session_count, stop_server}
use rdesk.Core.Hosting.Steps.{Step, accept, call, run, fresh, IsOver}
use rdesk.Core.Hosting.Stopping.{stop_server_lem}
use rdesk.Core.Input.{MouseEvent, KeyEvent, TouchEvent}
use rdesk.Core.Lifecycle.{new, get_state}
use rdesk.Core.Lifecycle.Diagram.{
  start_it, activate_it, stop_it, IsHistory, perform_all, perform_all-IsHistory,
}
use rdesk.Core.Codec.{raw_decoder}
use rdesk.Core.Viewing.{
  RemoteClient, not_active, send_mouse_event, send_key_event, send_touch_event, disconnect,
}
use rdesk.Core.Viewing.Disconnected.{perform_at, disconnect_drops_events}

perform_all-IsHistory_example :
    let s = perform_all (activate_it ∷ start_it ∷ activate_it ∷ stop_it ∷ []) (new (codes "s")) in
    IsHistory (get_state s) s.earlier × (length s.earlier ≤ 3)
perform_all-IsHistory_example =
    perform_all-IsHistory (codes "s") (activate_it ∷ start_it ∷ activate_it ∷ stop_it ∷ [])

abbrev before : List Step
before = accept 7 ∷ accept 8 ∷ call 0 stop_it ∷ []

abbrev after : List Step
after = accept 9 ∷ call 1 start_it ∷ []

stop_server_lem_example :
    let host = run before (fresh default true) in
    let done = run after (stop_server host) in
    (is_listening done ≡ false)
    × (active_session_count done ≡ active_session_count host)
    × All (IsOver done.made) host.server.sessions
stop_server_lem_example = stop_server_lem default true before after

abbrev client : RemoteClient
client = record { session = 0; decoder = raw_decoder; remote_device_id = codes "123456789" }

abbrev mouse : MouseEvent
mouse = record { x = pos 1; y = pos 2; mask = pos 0; modifiers = pos 0; event_type = pos 0 }

abbrev key : KeyEvent
key = record { key_code = 65; down = true; modifiers = pos 0; control_key = pos 0; chr = [] }

abbrev touch : TouchEvent
touch = record { points = []; event_type = pos 0 }

disconnect_drops_events_example :
    let later =
      perform_at
        ((0, start_it) ∷ (0, activate_it) ∷ [])
        (disconnect client (new (codes "s") ∷ [])) in
    (send_mouse_event mouse client later ≡ not_active)
    × (send_key_event key client later ≡ not_active)
    × (send_touch_event touch client later ≡ not_active)
disconnect_drops_events_example =
    disconnect_drops_events client (new (codes "s") ∷ []) ((0, start_it) ∷ (0, activate_it) ∷ [])
      mouse key touch

-- A screen of two pixels by two.
abbrev small : DesktopCapturer
small = record { display = record Capture.new.display { width = 2; height = 2 } }

capture_frame_lem_example :
    capture_frame small
    ≡ some (record {
      width = 2;
      height = 2;
      stride = 8;
      pixels = 0 ∷ 0 ∷ 32 ∷ 255 ∷ 1 ∷ 0 ∷ 32 ∷ 255 ∷ 0 ∷ 1 ∷ 32 ∷ 255 ∷ 1 ∷ 1 ∷ 32 ∷ 255 ∷ [];
      cursor = none;
    })
unfolding rows_from
capture_frame_lem_example = capture_frame_lem small (omega arith)

-- A compression that puts a byte in front.
abbrev stored_only : Compression
stored_only = record {
  compress_prepend_size = λ pixels. 7 ∷ pixels;
  decompress_size_prepended = λ payload. elim payload [ [] ↦ none | b ∷ pixels ↦ some pixels ];
}

abbrev shot : CapturedFrame
shot = record { width = 1; height = 1; stride = 4; pixels = 9 ∷ 8 ∷ 7 ∷ 255 ∷ []; cursor = none }

decode-encode_example :
    decode stored_only (encode stored_only shot true) false
    ≡ decoded (record { width = 1; height = 1; pixels = 9 ∷ 8 ∷ 7 ∷ 255 ∷ [] })
decode-encode_example =
    decode-encode stored_only shot true false (record { decompress-compress = λ pixels. refl })
      (omega arith) (omega arith)

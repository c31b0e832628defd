-- ===== src/Server/Sockets.antt =====
-- crates/rdesk_server/src/main.rs: the WebSockets of hosts and viewers.
--
-- A socket is a sequence of messages and other events, each with the time at which it is handled.
-- JSON is parsed by serde_json: a text comes here parsed, or as none where it is not what the code
-- reads. The commands that a host's socket is to send stand in `ws_host_cmd_tx`, the last one last.
pub mod Frames
pub mod Leases
use rdesk.Prelude.{
  ℕ, ◌+◌, Text, Bool, true, false, Option, none, some, List, [], ◌∷◌, ◌++◌, ltb, if◌then◌else◌,
  length, take, drop, Bytes, le32, le64, from_le,
}
use rdesk.Map
use rdesk.Server.State.{
  AppState, Response, success, bare, WsFrame, PendingCommand, CommandResult, Payload,
}
use rdesk.Server.Sessions.{validate_viewer, validate_host}
use rdesk.Server.Screen.{
  captures_on_demand, renew_screen_lease, release_screen_lease, screen_lease_alive,
}
use rdesk.Server.Commands.{answer, begin_command, end_command}
use rdesk.Server.Previews.{store_frame}

-- `AppState::get_or_create_broadcaster`, for what it does to the table.
unfoldable pub get_or_create_broadcaster : Text → AppState → AppState
get_or_create_broadcaster device_id s =
    if Map.contains_key device_id s.frame_broadcasters
    then s
    else record s { frame_broadcasters = Map.insert device_id [] s.frame_broadcasters }

-- `ws_host_handler`, and the beginning of `handle_ws_host`: the socket is opened, or the request is
-- refused with a status.
unfoldable pub open_ws_host : ℕ → Text → Text → AppState → AppState × Response (Unit {0})
unfolding get_or_create_broadcaster
open_ws_host now device_id host_token s =
    let s' = get_or_create_broadcaster device_id s in
    if validate_host now device_id host_token s
    then (if captures_on_demand device_id s
        then (s, bare 400)
        else (record s' { ws_host_cmd_tx = Map.insert device_id [] s'.ws_host_cmd_tx }, success tt))
    else (s, bare 401)

pub data HostMessage : Type 0 where
  binary : Bytes → HostMessage
  command_result : Option (Text × CommandResult) → HostMessage
  host_close : HostMessage
  other : HostMessage

-- A frame with its header of 16 bytes. The socket keeps the sender that it got when it was opened;
-- where the entry of the device is gone since then, the table of broadcasters has none to change.
unfoldable pub host_frame : ℕ → Text → Bytes → AppState → AppState
unfolding store_frame
host_frame now device_id bytes s =
    let host_timestamp_ms = from_le (take 8 (drop 8 bytes)) in
    store_frame now device_id (from_le (take 4 bytes)) (from_le (take 4 (drop 4 bytes)))
      (if ltb 0 host_timestamp_ms then host_timestamp_ms else now) (drop 16 bytes) s

-- A round of the loop of `handle_ws_host`, and whether the loop goes on.
unfoldable pub host_message : ℕ → Text → HostMessage → AppState → AppState × Bool
unfolding host_frame answer
host_message now device_id (binary bytes) s =
    let stored = host_frame now device_id bytes s in
    (if ltb (length bytes) 16 then s else stored, true)
host_message now device_id (command_result none) s = (s, true)
host_message now device_id (command_result (some (command_id, result))) s =
    (answer command_id result s, true)
host_message now device_id host_close s = (s, false)
host_message now device_id other s = (s, true)

-- The end of `handle_ws_host`.
unfoldable pub close_ws_host : Text → AppState → AppState
close_ws_host device_id s = record s { ws_host_cmd_tx = Map.remove device_id s.ws_host_cmd_tx }

-- `ws_viewer_handler`, and the beginning of `handle_ws_viewer`: `key` is `ws:` and a new token. Where
-- the lease is refused after the upgrade the socket is dropped.
unfoldable pub open_ws_viewer : ℕ → Text → Text → Text → AppState → AppState × Response Bool
unfolding get_or_create_broadcaster
open_ws_viewer now device_id token key s =
    let (s1, valid) = validate_viewer now device_id token s in
    let (s2, renewed) = renew_screen_lease now device_id token key s1 in
    if valid
    then (if renewed
        then (get_or_create_broadcaster device_id s2, success true)
        else (s2, success false))
    else (s1, bare 401)

-- What comes up in the loop of `handle_ws_viewer`. The Booleans say whether a send succeeded in
-- time. A command carries the id that is drawn for it, its kind and its payload,
-- or the defaults for what its JSON lacks.
pub data ViewerEvent : Type 0 where
  ping_tick : Bool → ViewerEvent
  frame : WsFrame → Bool → ViewerEvent
  lagged frames_over : ViewerEvent
  pong : ViewerEvent
  command : Option (Text × Text × Payload) → ViewerEvent
  viewer_close : ViewerEvent
  other_message : ViewerEvent

-- The packet of a frame: `RDF1`, the sizes and the times, and the picture.
unfoldable pub packet : WsFrame → Bytes
packet f =
    (b'R' ∷ b'D' ∷ b'F' ∷ b'1' ∷ [])
    ++ (le32 f.width
        ++ (le32 f.height ++ (le64 f.captured_at_ms ++ (le64 f.relay_received_at_ms ++ f.bytes))))

-- A command of a viewer goes to the host's socket, if it has one, and else into the device's queue,
-- where the viewer's socket waits for its end. `others` is what happens to the state meanwhile.
unfoldable pub send_command :
    ℕ → Text → Text → (AppState → AppState) → Text × Text × Payload → AppState → AppState
unfolding begin_command end_command
send_command now device_id token others (command_id, kind, payload) s =
    let waiting = begin_command now device_id token command_id kind payload s in
    let c : PendingCommand = record {
      command_id = command_id;
      kind = kind;
      payload = payload;
      queued_at_ms = now;
    } in
    elim (Map.get device_id s.ws_host_cmd_tx) [
      | some sent ↦ record s {
        ws_host_cmd_tx = Map.insert device_id (sent ++ c ∷ []) s.ws_host_cmd_tx;
      }
      | none ↦ elim waiting.1 [
        | success entered ↦ (end_command command_id (others waiting.0)).0
        | _ ↦ waiting.0
      ]
    ]

-- A round of the loop of `handle_ws_viewer`: the state, whether the loop goes on, and the packet that
-- is sent.
pub record Round : Type 0 where
  pub state : AppState
  pub goes_on : Bool
  pub sent : List Bytes

abbrev pub round : AppState → Bool → Round
round s goes_on = record { state = s; goes_on = goes_on; sent = [] }

module _ (device_id token key : Text) (others : AppState → AppState) where
  unfoldable pub viewer_event : ℕ → ViewerEvent → AppState → Round
  unfolding packet send_command
  viewer_event now (ping_tick delivered) s =
      if screen_lease_alive now device_id key s then round s delivered else round s false
  viewer_event now (frame f delivered) s =
      if screen_lease_alive now device_id key s
      then record { state = s; goes_on = delivered; sent = packet f ∷ [] }
      else round s false
  viewer_event now lagged s = round s (screen_lease_alive now device_id key s)
  viewer_event now frames_over s = round s false
  viewer_event now pong s =
      let (s', renewed) = renew_screen_lease now device_id token key s in
      if screen_lease_alive now device_id key s then round s' renewed else round s false
  viewer_event now (command sent) s =
      let (s', valid) = validate_viewer now device_id token s in
      if valid
      then round (elim sent [ none ↦ s' | some c ↦ send_command now device_id token others c s' ])
          true
      else round s' false
  viewer_event now viewer_close s = round s false
  viewer_event now other_message s = round s true

  -- The loop, and the release at its end: the state, the packets that were sent, and whether the
  -- socket is done. Where the events run out it is still open.
  unfoldable pub viewer_loop : List (ℕ × ViewerEvent) → AppState → AppState × List Bytes × Bool
  unfolding viewer_event
  viewer_loop [] s = (s, [], false)
  viewer_loop ((now, event) ∷ events) s =
      let r = viewer_event now event s in
      let rest = viewer_loop events r.state in
      if r.goes_on
      then (rest.0, r.sent ++ rest.1, rest.2)
      else (release_screen_lease now device_id key r.state, r.sent, true)

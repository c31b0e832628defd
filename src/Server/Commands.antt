-- ===== src/Server/Commands.antt =====
-- crates/rdesk_server/src/main.rs: the commands that a viewer sends to a host. A request queues
-- its command and waits; the host takes commands from its queue and answers them by their ids.
pub mod Delivery
pub mod Requests
pub mod Answered
pub mod Dated
pub mod Waiting
pub mod Answers
use rdesk.Prelude.{
  ℕ, zero, suc, ◌+◌, Text, codes, Bool, false, Option, none, some, List, [], ◌∷◌, ◌++◌, leb,
  if◌then◌else◌,
}
use rdesk.Map
use rdesk.Server.State.{
  AppState, PendingCommand, CommandResult, Payload, trust, point, action, drag, text, value,
  nothing, path, Response, success, failure, bare, is_fresh, command_ttl_ms, preview_ttl_ms,
}
use rdesk.Server.Sessions.{validate_viewer, validate_host}

-- `command_waiters.remove(id)`, and a send through the sender if there was one.
unfoldable pub answer : Text → CommandResult → AppState → AppState
answer command_id result s =
    if Map.contains_key command_id s.command_waiters
    then record s {
      command_waiters = Map.remove command_id s.command_waiters;
      replies = Map.insert command_id result s.replies;
    }
    else s

abbrev pub refused : CommandResult
refused = record { ok = false; text = none }

-- The loop of `expire_stale_device_commands` over the queue from its front.
unfoldable pub drop_stale : ℕ → List PendingCommand → AppState → List PendingCommand × AppState
unfolding answer
drop_stale now [] s = ([], s)
drop_stale now (c ∷ queue) s =
    let rest = drop_stale now queue (answer c.command_id refused s) in
    if is_fresh now c.queued_at_ms command_ttl_ms then (c ∷ queue, s) else rest

unfoldable pub put_queue : Text → List PendingCommand → AppState → AppState
put_queue device_id queue s = record s {
  command_queues = Map.insert device_id queue s.command_queues;
}

unfoldable pub expire_stale_device_commands : ℕ → Text → AppState → AppState
unfolding drop_stale put_queue
expire_stale_device_commands now device_id s = elim (Map.get device_id s.command_queues) [
  | none ↦ s
  | some queue ↦ let (rest, s') = drop_stale now queue s in put_queue device_id rest s'
]

-- `get_mut(device_id).and_then(|queue| queue.pop_front())`.
unfoldable pub pop_front : Text → AppState → AppState × Option PendingCommand
unfolding put_queue
pop_front device_id s = elim (Map.get device_id s.command_queues) [
  | none ↦ (s, none)
  | some [] ↦ (s, none)
  | some (c ∷ queue) ↦ (put_queue device_id queue s, some c)
]

-- One round of the long poll.
unfoldable pub poll_round : ℕ → Text → AppState → AppState × Option PendingCommand
unfolding expire_stale_device_commands pop_front
poll_round now device_id s = pop_front device_id (expire_stale_device_commands now device_id s)

abbrev pub long_poll_ms : ℕ
long_poll_ms = 5000

abbrev pub poll_tick_ms : ℕ
poll_tick_ms = 15

-- The answers of the poll: a command, status 204, or still waiting when the fuel is used up.
pub data Poll : Type 0 where
  got : PendingCommand → Poll
  no_content : Poll
  pending : Poll

-- `clock n` is the time of round `n`, and `others n` is what other requests do to the state while
-- the poll sleeps after it.
module _ (clock : ℕ → ℕ) (others : ℕ → AppState → AppState) (deadline : ℕ) (device_id : Text) where
  unfoldable pub poll_loop : ℕ → ℕ → AppState → AppState × Poll
  poll_loop zero n s = (s, pending)
  poll_loop (suc fuel) n s =
      let (s', found) = poll_round (clock n) device_id s in
      let next = poll_loop fuel (suc n) (others n s') in
      elim found [
        | some c ↦ (s', got c)
        | none ↦ if leb deadline (clock n) then (s', no_content) else next
      ]

unfoldable pub poll_host_command :
    (ℕ → ℕ) → (ℕ → AppState → AppState) → ℕ → Text → Text → AppState → AppState × Response Poll
unfolding poll_loop
poll_host_command clock others fuel device_id host_token s =
    if validate_host (clock 0) device_id host_token s
    then (let (s', answered) = poll_loop clock others (clock 0 + long_poll_ms) device_id fuel 0 s in
        (s', success answered))
    else (s, bare 401)

unfoldable pub complete_host_command :
    ℕ → Text → Text → Text → CommandResult → AppState → AppState × ℕ
unfolding answer
complete_host_command now device_id host_token command_id result s =
    if validate_host now device_id host_token s then (answer command_id result s, 200) else (s, 401)

-- The part of `forward_command_within` up to its wait: the command waits in the queue, or the
-- request is refused with a status.
unfoldable pub enqueue : Text → PendingCommand → AppState → AppState
unfolding put_queue
enqueue device_id c s =
    put_queue device_id
      (elim (Map.get device_id s.command_queues) [ none ↦ c ∷ [] | some queue ↦ queue ++ c ∷ [] ])
      (record s { command_waiters = Map.insert c.command_id tt s.command_waiters })

unfoldable pub hosted : ℕ → Text → AppState → Bool
hosted now device_id s = elim (Map.get device_id s.previews) [
  | none ↦ false
  | some preview ↦ is_fresh now preview.updated_at_ms preview_ttl_ms
]

unfoldable pub begin_command :
    ℕ → Text → Text → Text → Text → Payload → AppState → AppState × Response (Unit {0})
unfolding enqueue hosted
begin_command now device_id token command_id kind payload s =
    let (s1, valid) = validate_viewer now device_id token s in
    if valid
    then (if hosted now device_id s1
        then (
          enqueue device_id
              (record {
                command_id = command_id;
                kind = kind;
                payload = payload;
                queued_at_ms = now;
              })
              s1,
          success tt,
        )
        else (s1, bare 404))
    else (s1, bare 401)

-- The end of its wait: the reply, or a sender that was dropped, or the time is up.
unfoldable pub end_command : Text → AppState → AppState × Response CommandResult
end_command command_id s = elim (Map.get command_id s.replies) [
  | some result ↦ (record s { replies = Map.remove command_id s.replies }, success result)
  | none ↦
      if Map.contains_key command_id s.command_waiters
      then (record s { command_waiters = Map.remove command_id s.command_waiters }, bare 504)
      else (s, bare 502)
]

-- The endpoints under `/input`, `/clipboard`, `/displays`, `/settings` and `/session/trust`.
pub data Input : Type 0 where
  session_trust : Text → Text → Text → Input
  input_tap input_long_press : Text → Text → Input
  input_action input_text input_drag_path settings_quality clipboard_set : Text → Input
  input_drag : Text → Text → Text → Text → Input
  clipboard_get list_displays : Input

unfoldable pub command_of : Input → Text × Payload
command_of (session_trust device_id hostname peer_os) =
    (codes "trust", trust device_id hostname peer_os)
command_of (input_tap x y) = (codes "tap", point x y)
command_of (input_long_press x y) = (codes "long_press", point x y)
command_of (input_action name) = (codes "action", action name)
command_of (input_text written) = (codes "text", text written)
command_of (input_drag_path request) = (codes "drag_path", value request)
command_of (settings_quality request) = (codes "quality", value request)
command_of (clipboard_set written) = (codes "clipboard_set", text written)
command_of (input_drag x0 y0 x1 y1) = (codes "drag", drag x0 y0 x1 y1)
command_of clipboard_get = (codes "clipboard_get", nothing)
command_of list_displays = (codes "list_displays", nothing)

-- What each endpoint makes of the host's answer.
pub data Answer : Type 0 where
  generic_ok : Bool → Answer
  clipboard : Option Text → Answer
  displays : Text → Answer

abbrev pub text_or : Text → Option Text → Text
text_or d none = d
text_or d (some t) = t

unfoldable pub answer_of : Input → CommandResult → Answer
answer_of clipboard_get r = clipboard r.text
answer_of list_displays r = displays (text_or (codes "[]") r.text)
answer_of _ r = generic_ok r.ok

unfoldable pub begin_input :
    ℕ → Text → Text → Text → Input → AppState → AppState × Response (Unit {0})
unfolding begin_command command_of
begin_input now device_id token command_id input s =
    begin_command now device_id token command_id (command_of input).0 (command_of input).1 s

unfoldable pub end_input : Text → Input → AppState → AppState × Response Answer
unfolding end_command answer_of
end_input command_id input s =
    let (s', outcome) = end_command command_id s in
    (
      s',
      elim outcome [
        | success r ↦ success (answer_of input r)
        | failure status message ↦ failure status message
      ],
    )

-- `/api/file/list`.
unfoldable pub begin_file_list :
    ℕ → Text → Text → Text → Text → AppState → AppState × Response (Unit {0})
begin_file_list now device_id token command_id listed s =
    let (s1, valid) = validate_viewer now device_id token s in
    if valid
    then begin_command now device_id token command_id (codes "file_list") (path listed) s1
    else (s1, bare 401)

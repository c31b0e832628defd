-- ===== src/Core/Lifecycle.antt =====
-- crates/rdesk_core/src/session.rs: a session and its states.
--
-- The watch channel keeps the values that went through it, the newest in front; its first value is
-- the one that it was made with. The source makes one kind of each subsystem.
pub mod Diagram
use rdesk.Prelude.{
  ℕ, Bool, true, false, Option, none, some, List, [], ◌∷◌, if◌then◌else◌, not, Text,
}
use rdesk.Core.Capture.{DesktopCapturer}
use rdesk.Core.Clipboard.{ClipboardManager}
use rdesk.Core.Codec.{RawEncoder, RawDecoder}
use rdesk.Core.Input.{NoopInputSimulator}

pub data SessionState : Type 0 where
  connecting authenticating active disconnected : SessionState

unfoldable pub same_state : SessionState → SessionState → Bool
same_state connecting connecting = true
same_state authenticating authenticating = true
same_state active active = true
same_state disconnected disconnected = true
same_state _ _ = false

pub record Session : Type 0 where
  pub id : Text
  pub current : SessionState
  pub earlier : List SessionState
  pub capturer : Option DesktopCapturer
  pub encoder : Option RawEncoder
  pub decoder : Option RawDecoder
  pub input : Option NoopInputSimulator
  pub clipboard : Option ClipboardManager

unfoldable pub new : Text → Session
new id = record {
  id = id;
  current = connecting;
  earlier = [];
  capturer = none;
  encoder = none;
  decoder = none;
  input = none;
  clipboard = none;
}

unfoldable pub set_capturer : DesktopCapturer → Session → Session
set_capturer capturer s = record s { capturer = some capturer }

unfoldable pub set_encoder : RawEncoder → Session → Session
set_encoder encoder s = record s { encoder = some encoder }

unfoldable pub set_decoder : RawDecoder → Session → Session
set_decoder decoder s = record s { decoder = some decoder }

unfoldable pub set_input : NoopInputSimulator → Session → Session
set_input input s = record s { input = some input }

unfoldable pub set_clipboard : ClipboardManager → Session → Session
set_clipboard clipboard s = record s { clipboard = some clipboard }

unfoldable pub get_state : Session → SessionState
get_state s = s.current

-- What `send` does to the channel.
abbrev send : SessionState → Session → Session
send state s = record s { current = state; earlier = s.current ∷ s.earlier }

unfoldable pub set_state : SessionState → Session → Session
unfolding same_state
set_state state s = if same_state s.current state then s else send state s

pub data StateError : Type 0 where
  cannot_start : SessionState → StateError
  cannot_activate : SessionState → StateError

unfoldable pub start : Session → Session × Option StateError
unfolding set_state same_state get_state
start s =
    if not (same_state (get_state s) connecting)
    then (s, some (cannot_start (get_state s)))
    else (set_state authenticating s, none)

unfoldable pub activate : Session → Session × Option StateError
unfolding set_state same_state get_state
activate s =
    if not (same_state (get_state s) authenticating)
    then (s, some (cannot_activate (get_state s)))
    else (set_state active s, none)

unfoldable pub stop : Session → Session
unfolding set_state same_state get_state
stop s = if not (same_state (get_state s) disconnected) then set_state disconnected s else s

-- `Drop`, where nothing refers to the session any more.
unfoldable pub drop : Session → Session
unfolding stop get_state same_state
drop s = if not (same_state (get_state s) disconnected) then stop s else s

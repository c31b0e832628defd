-- ===== src/Core/Viewing.antt =====
-- crates/rdesk_core/src/client.rs: the controller's end.
--
-- What a call that sends an event comes to is in the log: the source has no connection yet.
pub mod Disconnected
use rdesk.Prelude.{ℕ, Bool, not, if◌then◌else◌, Option, none, some, Text}
use rdesk.Common.Config.{AppConfig}
use rdesk.Common.Disk.{Result, ok, err, not_implemented}
use rdesk.Core.Input.{MouseEvent, KeyEvent, TouchEvent}
use rdesk.Core.Codec.{RawDecoder}
use rdesk.Core.Lifecycle.{Session, active, disconnected, same_state, get_state, stop}
use rdesk.Core.Sessions.{Sessions, session_at, change_session}

pub record RemoteClient : Type 0 where
  pub session : ℕ
  pub decoder : RawDecoder
  pub remote_device_id : Text

-- The line that a call leaves in the log.
pub data Line : Type 0 where
  not_active : Line
  sent_mouse : MouseEvent → Line
  sent_key : KeyEvent → Line
  sent_touch : TouchEvent → Line

unfoldable pub connect : Text → Text → AppConfig → Result RemoteClient
connect device_id password config = err not_implemented

unfoldable pub start_viewing : RemoteClient → Result (Unit {0})
start_viewing client = ok tt

-- `get_state` of the client's session.
unfoldable pub is_active : RemoteClient → Sessions → Bool
unfolding session_at same_state get_state
is_active client sessions = elim (session_at client.session sessions) [
  | none ↦ same_state disconnected active
  | some s ↦ same_state (get_state s) active
]

unfoldable pub send_mouse_event : MouseEvent → RemoteClient → Sessions → Line
unfolding is_active
send_mouse_event event client sessions =
    if not (is_active client sessions) then not_active else sent_mouse event

unfoldable pub send_key_event : KeyEvent → RemoteClient → Sessions → Line
unfolding is_active
send_key_event event client sessions =
    if not (is_active client sessions) then not_active else sent_key event

unfoldable pub send_touch_event : TouchEvent → RemoteClient → Sessions → Line
unfolding is_active
send_touch_event event client sessions =
    if not (is_active client sessions) then not_active else sent_touch event

unfoldable pub disconnect : RemoteClient → Sessions → Sessions
unfolding change_session stop
disconnect client sessions = change_session client.session stop sessions

-- `Drop`: nothing refers to the client any more.
unfoldable pub drop : RemoteClient → Sessions → Sessions
unfolding change_session stop same_state get_state
drop client sessions =
    change_session client.session
      (λ s. if not (same_state (get_state s) disconnected) then stop s else s) sessions

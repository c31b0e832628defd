-- ===== src/Bridge/Controls.antt =====
-- crates/rdesk_bridge/src/api/session.rs: the input events of a session.
use rdesk.Prelude.{ℕ, Bool, List, [], map, Text, ℤ, pos}
use rdesk.Common.Disk.{Result, ok, err, not_connected}
use rdesk.Core.Input.{MouseEvent, KeyEvent, TouchPoint, TouchEvent}
use rdesk.Core.Viewing
use rdesk.Core.Viewing.{RemoteClient, Line}
use rdesk.Bridge.Registry.{Process, get_client}

pub record TouchPointData : Type 0 where
  pub id : ℤ
  pub x : ℕ
  pub y : ℕ
  pub pressure : ℕ

-- A call on a client that is registered, with what it leaves in the log.
abbrev pub with_client {ℓ} : {A : Type ℓ} → Text → Process → (RemoteClient → A) → Result A
with_client session_id process f = elim (get_client session_id process) [
  | ok client ↦ ok (f client)
  | err e ↦ err not_connected
]

unfoldable pub send_mouse_event : Text → ℤ → ℤ → ℤ → ℤ → Process → Result Line
unfolding get_client Viewing.send_mouse_event
send_mouse_event session_id x y mask event_type process =
    let mouse : MouseEvent = record {
      x = x;
      y = y;
      mask = mask;
      modifiers = pos 0;
      event_type = event_type;
    } in
    with_client session_id process
      (λ client. Viewing.send_mouse_event mouse client process.sessions)

unfoldable pub send_key_event : Text → ℕ → Bool → ℤ → Process → Result Line
unfolding get_client Viewing.send_key_event
send_key_event session_id key_code down modifiers process =
    let key : KeyEvent = record {
      key_code = key_code;
      down = down;
      modifiers = modifiers;
      control_key = pos 0;
      chr = [];
    } in
    with_client session_id process (λ client. Viewing.send_key_event key client process.sessions)

abbrev point : TouchPointData → TouchPoint
point p = record { id = p.id; x = p.x; y = p.y; pressure = p.pressure }

unfoldable pub send_touch_event : Text → List TouchPointData → ℤ → Process → Result Line
unfolding get_client Viewing.send_touch_event
send_touch_event session_id points event_type process =
    let touch : TouchEvent = record { points = map point points; event_type = event_type } in
    with_client session_id process
      (λ client. Viewing.send_touch_event touch client process.sessions)

unfoldable pub request_keyframe : Text → Process → Result (Unit {0})
unfolding get_client
request_keyframe session_id process = with_client session_id process (λ client. tt)

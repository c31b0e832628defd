-- ===== src/Core/Input.antt =====
-- crates/rdesk_core/src/input.rs, and the events of the protocol that it takes.
--
-- `f32` stands outside: the coordinates of a touch point are kept as the bits of the number.
use rdesk.Prelude.{ℕ, Bool, List, Text, ℤ}

pub record MouseEvent : Type 0 where
  pub x : ℤ
  pub y : ℤ
  pub mask : ℤ
  pub modifiers : ℤ
  pub event_type : ℤ

pub record KeyEvent : Type 0 where
  pub key_code : ℕ
  pub down : Bool
  pub modifiers : ℤ
  pub control_key : ℤ
  pub chr : Text

pub record TouchPoint : Type 0 where
  pub id : ℤ
  pub x : ℕ
  pub y : ℕ
  pub pressure : ℕ

pub record TouchEvent : Type 0 where
  pub points : List TouchPoint
  pub event_type : ℤ

pub data NoopInputSimulator : Type 0 where
  noop : NoopInputSimulator

unfoldable pub mouse_event : MouseEvent → NoopInputSimulator → NoopInputSimulator
mouse_event event simulator = simulator

unfoldable pub key_event : KeyEvent → NoopInputSimulator → NoopInputSimulator
key_event event simulator = simulator

unfoldable pub touch_event : TouchEvent → NoopInputSimulator → NoopInputSimulator
touch_event event simulator = simulator

unfoldable pub create_input_simulator : NoopInputSimulator
create_input_simulator = noop

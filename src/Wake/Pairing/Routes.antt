-- ===== src/Wake/Pairing/Routes.antt =====
-- crates/rdesk_server/src/wake/pairing.rs: the handlers. The random ids, proofs and codes that a
-- handler draws are arguments; `others` of a turn is what happens while it waits for a lock.
pub mod Phone
pub mod Desktop
pub use rdesk.Wake.Pairing.Routes.Phone.{
  open_for, is_full, named_session, new_pairing, fits, well_shaped, Drawn,
}
unfoldable pub use rdesk.Wake.Pairing.Routes.Phone.{
  put_pairings, take_limit, write_limit, put_session, create, found_session, checked_session,
  settle, phone_session, resolve, confirm,
}
pub use rdesk.Wake.Pairing.Routes.Desktop.{is_ok, enroll, cancel_of}
unfoldable pub use rdesk.Wake.Pairing.Routes.Desktop.{
  recheck, desktop_session, status, reclaim, claim_new, claim, cancel, cancel_all, complete,
}

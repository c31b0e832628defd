-- ===== src/Core/Chat.antt =====
-- crates/rdesk_core/src/chat.rs: the transcripts of the sessions.
--
-- The clock is a parameter: the seconds since 1970, or none before.
pub mod Transcripts
use rdesk.Prelude.{ℕ, Option, none, some, List, [], ◌∷◌, ◌++◌, Text}
use rdesk.Map.{Map, get, insert}

pub record ChatMessageRecord : Type 0 where
  pub sender : Text
  pub content : Text
  pub timestamp : ℕ

abbrev pub ChatStore : Type 0
ChatStore = Map (List ChatMessageRecord)

-- `get(..).cloned().unwrap_or_default()`.
unfoldable pub list_messages : Text → ChatStore → List ChatMessageRecord
unfolding get
list_messages session_id store = elim (get session_id store) [
  | none ↦ []
  | some messages ↦ messages
]

unfoldable pub send_message :
    Option ℕ → Text → Text → Text → ChatStore → ChatStore × Option ChatMessageRecord
unfolding insert list_messages
send_message none session_id sender content store = (store, none)
send_message (some now) session_id sender content store =
    let message : ChatMessageRecord = record {
      sender = sender;
      content = content;
      timestamp = now;
    } in
    (insert session_id (list_messages session_id store ++ message ∷ []) store, some message)

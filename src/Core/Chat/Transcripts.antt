-- ===== src/Core/Chat/Transcripts.antt =====
-- crates/rdesk_core/src/chat.rs: what is listed after several messages.
use rdesk.Prelude.{
  ℕ, ◌≡◌, refl, ap, sym, ◌∙◌, Option, none, some, List, [], ◌∷◌, ◌++◌, arith, Text, text_eq,
  append-nil, append_assoc, if◌then◌else◌, Bool-cases, inl, inr, text_eq_iff,
}
use rdesk.Map.{insert}
use rdesk.Map.Laws.{get-insert}
use rdesk.Core.Chat.{ChatMessageRecord, ChatStore, list_messages, send_message}

-- A message and what it is sent with.
pub record Letter : Type 0 where
  pub clock : Option ℕ
  pub session_id : Text
  pub sender : Text
  pub content : Text

unfoldable pub send_all : List Letter → ChatStore → ChatStore
unfolding send_message
send_all [] store = store
send_all (l ∷ letters) store =
    send_all letters (send_message l.clock l.session_id l.sender l.content store).0

-- What a call adds to the transcript of a session: nothing where the clock fails, or where it is
-- meant for another session.
unfoldable pub entry_of : Text → Option ℕ → Text → Text → Text → List ChatMessageRecord
entry_of session_id none to sender content = []
entry_of session_id (some now) to sender content =
    if text_eq to session_id
    then record { sender = sender; content = content; timestamp = now } ∷ []
    else []

unfoldable pub entries_of : Text → List Letter → List ChatMessageRecord
entries_of session_id [] = []
entries_of session_id (l ∷ letters) =
    entry_of session_id l.clock l.session_id l.sender l.content ++ entries_of session_id letters

list-insert :
    (session_id to : Text) (messages : List ChatMessageRecord) (store : ChatStore)
    → list_messages session_id (insert to messages store)
      ≡ (if text_eq to session_id then messages else list_messages session_id store)
unfolding list_messages
list-insert session_id to messages store = ground (arith, get-insert session_id to messages store)

list-send :
    (session_id : Text) (clock : Option ℕ) (to sender content : Text) (store : ChatStore)
    → list_messages session_id (send_message clock to sender content store).0
      ≡ list_messages session_id store ++ entry_of session_id clock to sender content
unfolding send_message entry_of
list-send session_id none to sender content store =
    sym (append-nil (list_messages session_id store))
list-send session_id (some now) to sender content store =
    elim (Bool-cases (text_eq to session_id)) [
      | inl e ↦
          let same : to ≡ session_id = (text_eq_iff to session_id).0 e in
          rw (list-insert session_id to, e, same) refl
      | inr e ↦ rw (list-insert session_id to, e, append-nil (list_messages session_id store)) refl
    ]

-- Whatever messages are sent, to whatever sessions: the transcript of a session is what it was,
-- and then the messages sent to it, in their order, without those for which the clock fails.
pub list_messages-send_all :
    (session_id : Text) (letters : List Letter) (store : ChatStore)
    → list_messages session_id (send_all letters store)
      ≡ list_messages session_id store ++ entries_of session_id letters
unfolding send_all entries_of
list_messages-send_all session_id [] store = sym (append-nil (list_messages session_id store))
list_messages-send_all session_id (l ∷ letters) store =
    list_messages-send_all session_id letters
      (send_message l.clock l.session_id l.sender l.content store).0
    ∙ ap (λ sent. sent ++ entries_of session_id letters)
        (list-send session_id l.clock l.session_id l.sender l.content store)
    ∙ append_assoc (list_messages session_id store)
        (entry_of session_id l.clock l.session_id l.sender l.content)
        (entries_of session_id letters)

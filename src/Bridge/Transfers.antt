-- ===== src/Bridge/Transfers.antt =====
-- crates/rdesk_bridge/src/api/file_transfer.rs and chat.rs: the files and the chat of a session.
use rdesk.Prelude.{ℕ, Bool, List, map, Option, none, some, Text}
use rdesk.Common.Disk.{ok, err, Io, reading, pure, ◌>>=◌, not_connected, list}
use rdesk.Core.Chat.{ChatMessageRecord, ChatStore, send_message, list_messages}
use rdesk.Core.FileTransfer.{FileEntry, LocalFiles, list_directory}
use rdesk.Core.FileTransfer
use rdesk.Bridge.Registry.{Process, get_client}

pub record FileEntryData : Type 0 where
  pub name : Text
  pub is_dir : Bool
  pub size : ℕ
  pub modified : ℕ

pub record ChatMessageData : Type 0 where
  pub sender : Text
  pub content : Text
  pub timestamp : ℕ

abbrev entry_data : FileEntry → FileEntryData
entry_data e = record { name = e.name; is_dir = e.is_dir; size = e.size; modified = e.modified }

abbrev message_data : ChatMessageRecord → ChatMessageData
message_data m = record { sender = m.sender; content = m.content; timestamp = m.timestamp }

abbrev guarded {ℓ} : {S : Type 0} {A : Type ℓ} → Text → Process → Io S A → Io S A
guarded session_id process m s = elim (get_client session_id process) [
  | ok client ↦ m s
  | err e ↦ (s, err not_connected)
]

module _ (L : LocalFiles) where
  unfoldable pub list_remote_dir : Text → Text → Process → Io L.FileSystem (List FileEntryData)
  unfolding get_client list_directory
  list_remote_dir session_id path process =
      guarded session_id process
        (do entries ← reading list (list_directory L path); pure (map entry_data entries))

  unfoldable pub send_file : Text → Text → Text → Process → Io L.FileSystem (Unit {0})
  unfolding get_client FileTransfer.send_file
  send_file session_id local_path remote_path process =
      guarded session_id process (FileTransfer.send_file L session_id local_path remote_path)

  unfoldable pub receive_file : Text → Text → Text → Process → Io L.FileSystem (Unit {0})
  unfolding get_client FileTransfer.receive_file
  receive_file session_id remote_path local_path process =
      guarded session_id process (FileTransfer.receive_file L session_id remote_path local_path)

unfoldable pub send_chat_message :
    Option ℕ → Text → Text → Text → ChatStore → ChatStore × Option ChatMessageData
unfolding send_message
send_chat_message clock session_id sender content store =
    let (store', sent) = send_message clock session_id sender content store in
    (store', elim sent [ none ↦ none | some message ↦ some (message_data message) ])

unfoldable pub list_chat_messages : Text → ChatStore → List ChatMessageData
unfolding list_messages
list_chat_messages session_id store = map message_data (list_messages session_id store)

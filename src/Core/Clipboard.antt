-- ===== src/Core/Clipboard.antt =====
-- crates/rdesk_core/src/clipboard.rs: the content that a session holds for the clipboard.
use rdesk.Prelude.{ℕ, Option, none, some, Text, Bytes}

pub data ClipboardContent : Type 0 where
  text : Text → ClipboardContent
  html : Text → ClipboardContent
  image_png : ℕ → ℕ → Bytes → ClipboardContent

pub record ClipboardManager : Type 0 where
  pub current : Option ClipboardContent

unfoldable pub new : ClipboardManager
new = record { current = none }

unfoldable pub set_content : ClipboardContent → ClipboardManager → ClipboardManager
set_content content clipboard = record clipboard { current = some content }

unfoldable pub content : ClipboardManager → Option ClipboardContent
content clipboard = clipboard.current

unfoldable pub clear : ClipboardManager → ClipboardManager
clear clipboard = record clipboard { current = none }

-- ===== src/Core/Sessions.antt =====
-- The sessions that a process has made, for what holds them as `Arc<Session>`: a reference is a
-- position, and a session is never taken out, so that a reference stays what it is.
pub mod Laws
use rdesk.Prelude.{ℕ, zero, suc, Option, none, some, List, [], ◌∷◌, ◌++◌}
use rdesk.Core.Lifecycle.{Session}

abbrev pub Sessions : Type 0
Sessions = List Session

unfoldable pub session_at : ℕ → Sessions → Option Session
session_at i [] = none
session_at zero (s ∷ sessions) = some s
session_at (suc i) (s ∷ sessions) = session_at i sessions

-- A call on the session that is referred to.
unfoldable pub change_session : ℕ → (Session → Session) → Sessions → Sessions
change_session i f [] = []
change_session zero f (s ∷ sessions) = f s ∷ sessions
change_session (suc i) f (s ∷ sessions) = s ∷ change_session i f sessions

-- `Arc::new`: the reference is the number of the sessions made before.
unfoldable pub add_session : Session → Sessions → Sessions
add_session s sessions = sessions ++ s ∷ []

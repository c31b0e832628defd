-- ===== src/Server/Accounts/Lives.antt =====
-- crates/rdesk_server/src/main.rs and wake/store.rs: the table of users and its file, from the start
-- of the server through registrations and deletions.
use rdesk.Prelude.{ℕ, ◌≡◌, Bool, true, none, List, [], ◌∷◌}
use rdesk.Map
use rdesk.Server.State.{AppState, UserRecord}
use rdesk.Server.Accounts.{load_users, persist_users, commit_user, commit_deletion}
use rdesk.Server.Accounts.Durable.{
  IsKeyed, IsDurable, start-IsDurable, commit_user-IsDurable, commit_deletion-IsDurable,
}

-- A registration or a deletion, and whether its write succeeds.
pub data Change : Type 0 where
  registers : Bool → UserRecord → Change
  deletes : Bool → UserRecord → Change

abbrev pub change : Change → AppState → AppState
change (registers stored user) s = (commit_user stored user s).0
change (deletes stored user) s = (commit_deletion stored user s).0

abbrev pub change_all : List Change → AppState → AppState
change_all [] s = s
change_all (c ∷ changes) s = change_all changes (change c s)

-- Each registration draws an id that is not there when it comes.
abbrev pub IsNew : Change → AppState → Type 0
IsNew (registers stored user) s = Map.get user.user_id s.users ≡ none
IsNew (deletes stored user) s = Unit

abbrev pub AllNew : List Change → AppState → Type 0
AllNew [] s = Unit
AllNew (c ∷ changes) s = IsNew c s × AllNew changes (change c s)

change-IsDurable : (c : Change) (s : AppState) → IsNew c s → IsDurable s → IsDurable (change c s)
change-IsDurable (registers stored user) s new h = commit_user-IsDurable stored user s new h
change-IsDurable (deletes stored user) s new h = commit_deletion-IsDurable stored user s h

changes-IsDurable :
    (changes : List Change) (s : AppState)
    → AllNew changes s
    → IsDurable s
    → IsDurable (change_all changes s)
changes-IsDurable [] s new h = h
changes-IsDurable (c ∷ changes) s new h =
    changes-IsDurable changes (change c s) new.1 (change-IsDurable c s new.0 h)

-- After the server's start, which loads the users into a table that is keyed by their ids and
-- writes them back, and after any registrations under new ids and any deletions from there on,
-- whether or not their writes succeed, the file of users holds what the table holds.
pub users_stay-IsDurable :
    (now : ℕ) (users : List UserRecord) (changes : List Change) (s : AppState)
    → IsKeyed s.users
    → AllNew changes (persist_users true (load_users now users s))
    → IsDurable (change_all changes (persist_users true (load_users now users s)))
users_stay-IsDurable now users changes s keyed new =
    changes-IsDurable changes (persist_users true (load_users now users s)) new
      (start-IsDurable now users s keyed)

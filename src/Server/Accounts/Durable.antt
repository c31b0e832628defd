-- ===== src/Server/Accounts/Durable.antt =====
-- crates/rdesk_server/src/main.rs: the file of the users and the table in memory.
use rdesk.Prelude.{
  ℕ, ◌≡◌, refl, Text, text_eq, Bool, true, not, none, some, List, [], ◌∷◌, ◌++◌, arith, All, keep,
  find, update_first,
}
use rdesk.Map
use rdesk.Map.{Map}
use rdesk.Server.State.{AppState, UserRecord}
use rdesk.Server.Accounts.{commit_user, commit_deletion, persist_users, load_users, load_user}
use rdesk.Wake.Model.{recover_after_restart}

-- Each user stands under his id.
abbrev pub IsKeyed : Map UserRecord → Type 0
IsKeyed = All (λ e. e.0 ≡ e.1.user_id)

pub record IsDurable (s : AppState) : Type 0 where
  pub keyed : IsKeyed s.users
  pub saved : s.user_store ≡ Map.values s.users

abbrev pub is_id : Text → UserRecord → Bool
is_id id u = text_eq u.user_id id

pub insert-IsKeyed :
    (k : Text) (u : UserRecord) (m : Map UserRecord)
    → k ≡ u.user_id
    → IsKeyed m
    → IsKeyed (Map.insert k u m)
unfolding Map.insert
insert-IsKeyed k u [] e h = (e, tt)
insert-IsKeyed k u ((i, w) ∷ m) e h = ground (arith, insert-IsKeyed k u m e h.1)

pub remove-IsKeyed : (k : Text) (m : Map UserRecord) → IsKeyed m → IsKeyed (Map.remove k m)
unfolding Map.remove
remove-IsKeyed k [] h = tt
remove-IsKeyed k ((i, w) ∷ m) h = ground (arith, remove-IsKeyed k m h.1)

-- A user who is new goes to the end.
values-insert_new :
    (k : Text) (u : UserRecord) (m : Map UserRecord)
    → Map.get k m ≡ none
    → Map.values (Map.insert k u m) ≡ Map.values m ++ u ∷ []
unfolding Map.insert Map.get Map.values
values-insert_new k u [] e = refl
values-insert_new k u ((i, w) ∷ m) e = ground (arith, values-insert_new k u m)

pub values-insert_known :
    (k : Text) (u v : UserRecord) (m : Map UserRecord)
    → IsKeyed m
    → find (is_id k) (Map.values m) ≡ some v
    → Map.values (Map.insert k u m) ≡ update_first (is_id k) (λ _. u) (Map.values m)
unfolding Map.insert Map.values
values-insert_known k u v [] h e = cc
values-insert_known k u v ((i, w) ∷ m) h e =
    rw h.0 (ground (arith, values-insert_known k u v m h.1))

values-remove :
    (k : Text) (m : Map UserRecord)
    → IsKeyed m
    → Map.values (Map.remove k m) ≡ keep (λ u. not (is_id k u)) (Map.values m)
unfolding Map.remove Map.values
values-remove k [] h = refl
values-remove k ((i, w) ∷ m) h = rw h.0 (ground (arith, values-remove k m h.1))

pub find-values :
    (k : Text) (m : Map UserRecord) → IsKeyed m → find (is_id k) (Map.values m) ≡ Map.get k m
unfolding Map.get Map.values
find-values k [] h = refl
find-values k ((i, w) ∷ m) h = rw h.0 (ground (arith, find-values k m h.1))

-- A registration under a new id keeps the file and the table the same, stored or not.
pub commit_user-IsDurable :
    (stored : Bool) (user : UserRecord) (s : AppState)
    → Map.get user.user_id s.users ≡ none
    → IsDurable s
    → IsDurable (commit_user stored user s).0
unfolding commit_user
commit_user-IsDurable stored user s new h = record {
  keyed = ground (arith, h.keyed, insert-IsKeyed user.user_id user s.users refl h.keyed);
  saved = ground (arith, h.saved, values-insert_new user.user_id user s.users new);
}

-- So does a deletion.
pub commit_deletion-IsDurable :
    (stored : Bool) (user : UserRecord) (s : AppState)
    → IsDurable s
    → IsDurable (commit_deletion stored user s).0
unfolding commit_deletion
commit_deletion-IsDurable stored user s h = record {
  keyed = ground (arith, h.keyed, remove-IsKeyed user.user_id s.users h.keyed);
  saved = ground (arith, h.saved, values-remove user.user_id s.users h.keyed);
}

load_users-IsKeyed :
    (now : ℕ) (users : List UserRecord) (s : AppState)
    → IsKeyed s.users
    → IsKeyed (load_users now users s).users
unfolding load_users
load_users-IsKeyed now [] s h = h
load_users-IsKeyed now (u ∷ rest) s h = load_users-IsKeyed now rest (load_user now u s) (
    unfold load_user in
    insert-IsKeyed u.user_id (record u { wake = recover_after_restart now u.wake }) s.users refl h)

-- The start of the server, which loads the users and writes them back, begins with the two the same.
pub start-IsDurable :
    (now : ℕ) (users : List UserRecord) (s : AppState)
    → IsKeyed s.users
    → IsDurable (persist_users true (load_users now users s))
unfolding persist_users
start-IsDurable now users s h = record { keyed = load_users-IsKeyed now users s h; saved = refl }

-- ===== src/Server/Accounts/Records.antt =====
-- crates/rdesk_server/src/main.rs: how the records of the accounts are loaded, entered, removed and
-- saved. Whether a write to the disk succeeded is an argument.
use rdesk.Prelude.{
  ℕ, ◌-◌, Text, text_eq, codes, Bool, true, false, not, Option, none, some, List, [], ◌∷◌, ◌++◌,
  leb, if◌then◌else◌, keep,
}
use rdesk.Map
use rdesk.Map.{Map}
use rdesk.Wake.Model.{recover_after_restart}
use rdesk.Server.State.{AppState, UserRecord, AuthSession, auth_session_ttl_ms}

-- `wake::store::write_user_snapshot`: the new file is renamed over the old one, or nothing changes.
unfoldable pub write_user_snapshot : Bool → List UserRecord → AppState → AppState
write_user_snapshot stored users s = if stored then record s { user_store = users } else s

unfoldable pub persist_users : Bool → AppState → AppState
unfolding write_user_snapshot
persist_users stored s = write_user_snapshot stored (Map.values s.users) s

unfoldable pub persist_auth_sessions : Bool → AppState → AppState
persist_auth_sessions stored s = if stored then record s { session_store = s.auth_sessions } else s

-- The part of `load_users` for one record.
unfoldable pub load_user : ℕ → UserRecord → AppState → AppState
load_user now user s = record s {
  username_index = Map.insert user.username user.user_id s.username_index;
  users =
      Map.insert user.user_id (record user { wake = recover_after_restart now user.wake }) s.users;
}

unfoldable pub load_users : ℕ → List UserRecord → AppState → AppState
unfolding load_user
load_users now [] s = s
load_users now (user ∷ rest) s = load_users now rest (load_user now user s)

unfoldable pub load_auth_sessions : ℕ → Map AuthSession → AppState → AppState
load_auth_sessions now [] s = s
load_auth_sessions now ((token, session) ∷ rest) s = load_auth_sessions now rest (
    if leb (now - session.last_seen_ms) auth_session_ttl_ms
    then record s { auth_sessions = Map.insert token session s.auth_sessions }
    else s)

-- Registration under the store's lock: the name is checked again, the list of all users is
-- written, and only then the user is entered.
unfoldable pub commit_user : Bool → UserRecord → AppState → AppState × Option (ℕ × Text)
unfolding write_user_snapshot
commit_user stored user s =
    if Map.contains_key user.username s.username_index
    then (s, some (409, codes "账号已存在"))
    else if stored
    then (
      record (write_user_snapshot true (Map.values s.users ++ user ∷ []) s) {
        users = Map.insert user.user_id user s.users;
        username_index = Map.insert user.username user.user_id s.username_index;
      },
      none,
    )
    else (write_user_snapshot false (Map.values s.users ++ user ∷ []) s, some (500, codes "保存账号失败"))

-- Deletion under the lock.
unfoldable pub purge_user : UserRecord → AppState → AppState
purge_user user s = record s {
  users = Map.remove user.user_id s.users;
  username_index = Map.remove user.username s.username_index;
  auth_sessions = Map.retain (λ _ a. not (text_eq a.user_id user.user_id)) s.auth_sessions;
  account_presence = Map.retain (λ _ p. not (text_eq p.user_id user.user_id)) s.account_presence;
}

unfoldable pub commit_deletion : Bool → UserRecord → AppState → AppState × Option (ℕ × Text)
unfolding write_user_snapshot purge_user
commit_deletion stored user s =
    let snapshot = keep (λ u. not (text_eq u.user_id user.user_id)) (Map.values s.users) in
    if Map.contains_key user.user_id s.users
    then (if stored
        then (purge_user user (write_user_snapshot true snapshot s), none)
        else (write_user_snapshot false snapshot s, some (500, codes "删除账号失败，请重试")))
    else (s, some (401, codes "登录状态已失效"))

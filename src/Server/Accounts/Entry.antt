-- ===== src/Server/Accounts/Entry.antt =====
-- crates/rdesk_server/src/main.rs: registration, login and deletion. Password hashing and the lower
-- case of Unicode are parameters.
use rdesk.Prelude.{
  ℕ, Text, codes, trim, byte_len, Bool, true, not, Option, none, some, ltb, if◌then◌else◌, is_empty,
  is_some_and, keep_if,
}
use rdesk.Map
use rdesk.Map.{Map}
use rdesk.Wake.Model.{no_wake_data}
use rdesk.Server.State.{AppState, UserRecord, Response, success, failure, min_password_len}
use rdesk.Server.Sessions.{AccountSessionResponse, create_account_session, authenticated_user}
use rdesk.Server.Accounts.Records.{persist_auth_sessions, commit_user, commit_deletion}

pub record AccountAuthRequest : Type 0 where
  pub username : Text
  pub password : Text
  pub display_name : Option Text

module _ (to_lowercase : Text → Text) (hash_password : Text → Option Text)
    (verify_password : Text → Text → Option Bool) where
  unfoldable pub normalize_username : Text → Text
  normalize_username raw = to_lowercase (trim raw)

  abbrev pub display_name_of : AccountAuthRequest → Text → Text
  display_name_of request username =
      elim (keep_if (λ (v : Text). not (is_empty v))
        (elim request.display_name [ none ↦ none | some n ↦ some (trim n) ])) [
          | none ↦ username
          | some n ↦ n
        ]

  unfoldable pub register_account :
      ℕ
      → Text
      → Text
      → Bool
      → Bool
      → (AppState → AppState)
      → AccountAuthRequest
      → AppState
      → AppState × Response AccountSessionResponse
  unfolding normalize_username commit_user persist_auth_sessions
  register_account now user_id token stored sessions_stored others request s =
      let username = normalize_username request.username in
      let password = trim request.password in
      if is_empty username
      then (s, failure 400 (codes "账号不能为空"))
      else if ltb (byte_len password) min_password_len
      then (s, failure 400 (codes "密码至少需要 6 位"))
      else if Map.contains_key username s.username_index
      then (s, failure 409 (codes "账号已存在"))
      else elim (hash_password password) [
        | none ↦ (s, failure 500 (codes "密码处理失败"))
        | some password_hash ↦
            let user : UserRecord = record {
              user_id = user_id;
              username = username;
              display_name = display_name_of request username;
              password_hash = password_hash;
              created_at_ms = now;
              wake = no_wake_data;
            } in
            let (s1, refusal) = commit_user stored user (others s) in
            elim refusal [
              | some (status, message) ↦ (s1, failure status message)
              | none ↦
                  let (s2, session) = create_account_session now token user s1 in
                  (persist_auth_sessions sessions_stored s2, success session)
            ]
      ]

  -- `verify_password(..).unwrap_or(false)`.
  abbrev pub verified : Text → Text → Bool
  verified password hash = is_some_and (λ (b : Bool). b) (verify_password password hash)

  abbrev pub bad_login : Response AccountSessionResponse
  bad_login = failure 401 (codes "账号或密码错误")

  abbrev pub user_named : Text → AppState → Option UserRecord
  user_named username s = elim (Map.get username s.username_index) [
    | none ↦ none
    | some user_id ↦ Map.get user_id s.users
  ]

  unfoldable pub login_account :
      ℕ → Text → Bool → AccountAuthRequest → AppState → AppState × Response AccountSessionResponse
  unfolding normalize_username persist_auth_sessions
  login_account now token sessions_stored request s =
      elim (user_named (normalize_username request.username) s) [
        | none ↦ (s, bad_login)
        | some user ↦
            if verified (trim request.password) user.password_hash
            then (let (s1, session) = create_account_session now token user s in
                (persist_auth_sessions sessions_stored s1, success session))
            else (s, bad_login)
      ]

  unfoldable pub delete_account :
      ℕ
      → Option Text
      → Bool
      → Bool
      → (AppState → AppState)
      → Text
      → AppState
      → AppState × Response Bool
  unfolding commit_deletion persist_auth_sessions
  delete_account now header stored sessions_stored others password s =
      let (s1, caller) = authenticated_user now header s in
      elim caller [
        | none ↦ (s1, failure 401 (codes "登录状态已失效"))
        | some user ↦
            if verified (trim password) user.password_hash
            then (let (s2, refusal) = commit_deletion stored user (others s1) in
                elim refusal [
                  | some (status, message) ↦ (s2, failure status message)
                  | none ↦ (persist_auth_sessions sessions_stored s2, success true)
                ])
            else (s1, failure 401 (codes "密码错误，账号未删除"))
      ]

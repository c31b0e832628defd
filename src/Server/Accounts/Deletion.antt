-- ===== src/Server/Accounts/Deletion.antt =====
-- What an account that is deleted leaves behind.
use rdesk.Prelude.{
  ℕ, ◌≡◌, ◌≢◌, Text, text_eq, text_eq_iff, text_eq_refl, Bool, true, false, not, Option, none, some,
  arith, Option-cases, Bool-cases, inl, inr, is_some_and, trim,
}
use rdesk.Map
use rdesk.Map.Laws.{get-remove, get-retain}
use rdesk.Server.State.{AppState, UserRecord, AuthSession, AccountPresence, success}
use rdesk.Server.Sessions.{authenticated_user, validate_auth_session}
use rdesk.Server.Accounts.{commit_deletion, purge_user, delete_account, persist_auth_sessions}

abbrev pub is_of : UserRecord → AccountPresence → Bool
is_of user p = text_eq p.user_id user.user_id

module _ (user : UserRecord) (later : ℕ) (token device_id : Text) where
  -- Of a user that is gone there is no entry, no name, no session that the token opens, and not the
  -- device.
  abbrev pub IsGone : AppState → Type 0
  IsGone s =
      (Map.get user.user_id s.users ≡ none)
      × (Map.get user.username s.username_index ≡ none)
      × ((validate_auth_session later token s).1 ≢ some user.user_id)
      × (is_some_and (is_of user) (Map.get device_id s.account_presence) ≡ false)

  purge-IsGone : (s : AppState) → IsGone (purge_user user s)
  unfolding purge_user validate_auth_session
  purge-IsGone s =
      let kept =
        get-retain token (λ _ (a : AuthSession). not (text_eq a.user_id user.user_id))
          s.auth_sessions in
      (
        ground (arith, get-remove user.user_id user.user_id s.users, text_eq_refl user.user_id),
        ground (
          arith,
          get-remove user.username user.username s.username_index,
          text_eq_refl user.username,
        ),
        λ e. elim (Option-cases (Map.get token s.auth_sessions)) [
          | inl missing ↦ ground (arith, kept)
          | inr (a, found) ↦ ground (arith, kept, text_eq_iff a.user_id user.user_id)
        ],
        ground (
          arith,
          get-retain device_id (λ _ (q : AccountPresence). not (text_eq q.user_id user.user_id))
              s.account_presence,
        ),
      )

  persist-IsGone :
      (stored : Bool) (s : AppState) → IsGone s → IsGone (persist_auth_sessions stored s)
  unfolding persist_auth_sessions validate_auth_session
  persist-IsGone true s g = (g.0, g.1, λ e. g.2 (ground arith), g.3)
  persist-IsGone false s g = g

  commit-IsGone :
      (stored : Bool) (s : AppState)
      → (commit_deletion stored user s).1 ≡ none
      → IsGone (commit_deletion stored user s).0
  unfolding commit_deletion
  commit-IsGone true s e = elim (Bool-cases (Map.contains_key user.user_id s.users)) [
    | inl there ↦ rw (there, commit_deletion) (purge-IsGone _)
    | inr gone ↦ absurd (ground arith)
  ]
  commit-IsGone false s e = absurd (ground arith)

  module _ (to_lowercase : Text → Text) (hash_password : Text → Option Text)
      (verify_password : Text → Text → Option Bool) where
    -- An account deletion that succeeds was asked for with the account's password, and leaves nothing
    -- of the caller: no entry, no name in the index, no session and no device.
    pub delete_account-IsGone :
        (now : ℕ) (header : Option Text) (stored sessions_stored : Bool)
        (others : AppState → AppState) (password : Text) (s : AppState)
        → (authenticated_user now header s).1 ≡ some user
        → (delete_account to_lowercase hash_password verify_password now header stored
            sessions_stored others password s).1
          ≡ success true
        → (verify_password (trim password) user.password_hash ≡ some true)
          × IsGone
              (delete_account to_lowercase hash_password verify_password now header stored
                sessions_stored others password s).0
    unfolding delete_account
    delete_account-IsGone now header stored sessions_stored others password s caller e =
        let s1 = (authenticated_user now header s).0 in
        let right : verify_password (trim password) user.password_hash ≡ some true = ground arith in
        let done : (commit_deletion stored user (others s1)).1 ≡ none = ground arith in
        (
          right,
          rw (caller, delete_account, right, done)
              (persist-IsGone sessions_stored _ (commit-IsGone stored (others s1) done)),
        )

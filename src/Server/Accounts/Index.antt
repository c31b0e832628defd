-- ===== src/Server/Accounts/Index.antt =====
-- crates/rdesk_server/src/main.rs: the index of user names, and how it fits the table of users.
use rdesk.Prelude.{
  ◌≡◌, Text, text_eq, text_eq_iff, Bool, none, some, arith, Bool-cases, inl, inr, is_some,
}
use rdesk.Map
use rdesk.Map.Laws.{get-insert}
use rdesk.Server.State.{AppState, UserRecord}
use rdesk.Server.Accounts.{commit_user, write_user_snapshot}

pub record IsIndexed (s : AppState) : Type 0 where
  pub listed :
      (id : Text) (u : UserRecord)
      → Map.get id s.users ≡ some u
      → (u.user_id ≡ id) × (Map.get u.username s.username_index ≡ some id)
  pub found :
      (name id : Text)
      → Map.get name s.username_index ≡ some id
      → (u : UserRecord) × (Map.get id s.users ≡ some u) × (u.username ≡ name)

module _ (stored : Bool) (user : UserRecord) (s : AppState) (ok : IsIndexed s) where
  commit-listed :
      Map.get user.user_id s.users ≡ none
      → (id : Text) (u : UserRecord) → Map.get id (commit_user stored user s).0.users ≡ some u
      → (u.user_id ≡ id)
        × (Map.get u.username (commit_user stored user s).0.username_index ≡ some id)
  unfolding commit_user write_user_snapshot
  commit-listed new id u e = grind (arith, get-insert, text_eq_iff, ok.listed id u)

  commit-found :
      Map.get user.user_id s.users ≡ none
      → (name id : Text) → Map.get name (commit_user stored user s).0.username_index ≡ some id
      → (u : UserRecord) × (Map.get id (commit_user stored user s).0.users ≡ some u)
        × (u.username ≡ name)
  unfolding commit_user write_user_snapshot
  commit-found new name id e =
      elim (Bool-cases (is_some (Map.get user.username s.username_index))) [
        | inl taken ↦
            let old = ok.found name id (ground arith) in (old.0, ground (arith, old.1), old.2)
        | inr free ↦ elim (Bool-cases stored) [
          | inr lost ↦
              let old = ok.found name id (ground arith) in (old.0, ground (arith, old.1), old.2)
          | inl written ↦ elim (Bool-cases (text_eq user.username name)) [
            | inl same ↦ (
              user,
              ground (
                arith,
                get-insert name user.username user.user_id s.username_index,
                get-insert id user.user_id user s.users,
                text_eq_iff user.user_id id,
              ),
              (text_eq_iff user.username name).0 same,
            )
            | inr other ↦
                let old =
                  ok.found name id
                    (ground (arith, get-insert name user.username user.user_id s.username_index)) in
                (
                  old.0,
                  ground (
                    arith,
                    old.1,
                    get-insert id user.user_id user s.users,
                    text_eq_iff user.user_id id,
                  ),
                  old.2,
                )
          ]
        ]
      ]

  -- A registration under a new id keeps the index and the users in step, stored or not.
  pub commit_user-IsIndexed :
      Map.get user.user_id s.users ≡ none → IsIndexed (commit_user stored user s).0
  commit_user-IsIndexed new = record { listed = commit-listed new; found = commit-found new }

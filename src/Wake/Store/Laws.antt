-- ===== src/Wake/Store/Laws.antt =====
-- crates/rdesk_server/src/wake/store.rs: `update_wake` as a transaction.
use rdesk.Prelude.{
  ◌≡◌, refl, sym, ◌∙◌, Text, text_eq, text_eq_iff, true, false, some, arith, find, find_passes,
  Option-cases, Bool-cases, inl, inr,
}
use rdesk.Map
use rdesk.Map.Laws.{get-insert}
use rdesk.Server.State.{AppState, UserRecord}
use rdesk.Server.Accounts.{write_user_snapshot}
use rdesk.Server.Accounts.Durable.{
  IsDurable, is_id, insert-IsKeyed, values-insert_known, find-values,
}
use rdesk.Wake.Model.{WakeResult, ok, err, WakeError, WakeAccountData, prune}
use rdesk.Wake.Devices.{Mutation}
use rdesk.Wake.Validity.{IsValid, Keeps}
use rdesk.Wake.Validity.Pruning.{prune-IsValid}
use rdesk.Wake.Store.{Turn, commit_wake, locked_update, update_wake}

-- A user that is found by his id has it.
find-id :
    (k : Text) (u : UserRecord) (s : AppState)
    → find (is_id k) (Map.values s.users) ≡ some u
    → k ≡ u.user_id
find-id k u s e = sym ((text_eq_iff u.user_id k).0 (find_passes (is_id k) u (Map.values s.users) e))

-- The data of every account are valid.
abbrev pub AllValid : AppState → Type 0
AllValid s = (k : Text) (u : UserRecord) → Map.get k s.users ≡ some u → IsValid u.wake

entered :
    {A : Type 0} (turn : Turn) (user_id : Text) (user : UserRecord) (d : WakeAccountData)
    (value : A) (s : AppState)
    → IsValid d
    → AllValid s
    → AllValid (commit_wake turn user_id user (ok (d, value)) s).0
unfolding commit_wake write_user_snapshot
entered turn user_id user d value s valid h k u e = elim (Bool-cases turn.stored) [
  | inl written ↦ elim (Bool-cases (text_eq user_id k)) [
    | inl same ↦ rw (wake_of same written) (prune-IsValid turn.now d valid)
    | inr other ↦ h k u (ground (arith, get-insert k user_id updated s.users))
  ]
  | inr refused ↦ h k u (ground arith)
]
  where
    updated : UserRecord
    updated = record user { wake = prune turn.now d }

    wake_of : text_eq user_id k ≡ true → turn.stored ≡ true → u.wake ≡ prune turn.now d
    wake_of same written = ground (arith, get-insert k user_id updated s.users)

module _ {A : Type 0} (turn : Turn) (user_id : Text) (m : Mutation A) where
  commit-IsDurable :
      (user : UserRecord) (r : WakeResult (WakeAccountData × A)) (s : AppState)
      → find (is_id user_id) (Map.values s.users) ≡ some user
      → IsDurable s
      → IsDurable (commit_wake turn user_id user r s).0
  unfolding commit_wake write_user_snapshot
  commit-IsDurable user (err e) s found h = h
  commit-IsDurable user (ok (d, value)) s found h =
      let updated : UserRecord = record user { wake = prune turn.now d } in
      record {
        keyed = ground (
          arith,
          h.keyed,
          insert-IsKeyed user_id updated s.users (find-id user_id user s found) h.keyed,
        );
        saved =
            ground (arith, h.saved, values-insert_known user_id updated user s.users h.keyed found);
      }

  -- Stored or refused, the file holds what the table holds, if it did when the lock was taken.
  pub update_wake-IsDurable :
      (s : AppState) → IsDurable (turn.others s) → IsDurable (update_wake turn user_id m s).0
  unfolding update_wake locked_update
  update_wake-IsDurable s h =
      elim (Option-cases (find (is_id user_id) (Map.values (turn.others s).users))) [
        | inl missing ↦ rw (missing, update_wake, locked_update) h
        | inr (user, found) ↦
            rw (found, update_wake, locked_update)
              (commit-IsDurable user (m user.wake) (turn.others s) found h)
      ]

  commit_error :
      (user : UserRecord) (r : WakeResult (WakeAccountData × A)) (s : AppState) (e : WakeError)
      → (commit_wake turn user_id user r s).1 ≡ err e
      → (commit_wake turn user_id user r s).0 ≡ s
  unfolding commit_wake write_user_snapshot
  commit_error user (err e') s e h = refl
  commit_error user (ok (d, value)) s e h = ground arith

  -- An error leaves the state as the lock found it.
  pub update_wake_atomic :
      (s : AppState) (e : WakeError)
      → (update_wake turn user_id m s).1 ≡ err e
      → (update_wake turn user_id m s).0 ≡ turn.others s
  unfolding update_wake locked_update
  update_wake_atomic s e h =
      elim (Option-cases (find (is_id user_id) (Map.values (turn.others s).users))) [
        | inl missing ↦ rw (missing, update_wake, locked_update)
        | inr (user, found) ↦
            rw (found, update_wake, locked_update)
              (commit_error user (m user.wake) (turn.others s) e
                (rw (found, update_wake, locked_update) at h))
      ]

  commit-AllValid :
      (user : UserRecord) (s : AppState)
      → Keeps m
      → IsValid user.wake
      → AllValid s
      → AllValid (commit_wake turn user_id user (m user.wake) s).0
  commit-AllValid user s keeps valid h = go (m user.wake) (λ d a e. keeps user.wake d a e valid)
    where
      go :
          (r : WakeResult (WakeAccountData × A))
          → ((d : WakeAccountData) (a : A) → r ≡ ok (d, a) → IsValid d)
          → AllValid (commit_wake turn user_id user r s).0
      go (err e) g = unfold commit_wake in h
      go (ok (d, value)) g = λ k u e. entered turn user_id user d value s (g d value refl) h k u e

  updated-AllValid :
      (s : AppState)
      → Keeps m
      → IsDurable (turn.others s)
      → AllValid (turn.others s)
      → AllValid (update_wake turn user_id m s).0
  unfolding update_wake locked_update
  updated-AllValid s keeps durable h =
      elim (Option-cases (find (is_id user_id) (Map.values (turn.others s).users))) [
        | inl missing ↦ rw (missing, update_wake, locked_update) h
        | inr (user, found) ↦
            rw (found, update_wake, locked_update)
              (commit-AllValid user (turn.others s) keeps
                (h user_id user
                  (sym (find-values user_id (turn.others s).users durable.keyed) ∙ found))
                h)
      ]

  commit_other_users :
      (user : UserRecord) (r : WakeResult (WakeAccountData × A)) (s : AppState) (k : Text)
      → text_eq user_id k ≡ false
      → Map.get k (commit_wake turn user_id user r s).0.users ≡ Map.get k s.users
  unfolding commit_wake write_user_snapshot
  commit_other_users user (err e) s k ne = refl
  commit_other_users user (ok (d, value)) s k ne =
      ground (arith, get-insert k user_id (record user { wake = prune turn.now d }) s.users)

  -- A closure that keeps data valid keeps those of all accounts valid, through `update_wake`.
  pub update_wake-AllValid :
      (s : AppState) (k : Text) (u : UserRecord)
      → Keeps m
      → IsDurable (turn.others s)
      → AllValid (turn.others s)
      → Map.get k (update_wake turn user_id m s).0.users ≡ some u
      → IsValid u.wake
  update_wake-AllValid s k u keeps durable h = updated-AllValid s keeps durable h k u

  -- No other account changes.
  pub update_wake_other_users :
      (s : AppState) (k : Text)
      → text_eq user_id k ≡ false
      → Map.get k (update_wake turn user_id m s).0.users ≡ Map.get k (turn.others s).users
  unfolding update_wake locked_update
  update_wake_other_users s k ne =
      elim (Option-cases (find (is_id user_id) (Map.values (turn.others s).users))) [
        | inl missing ↦ rw (missing, update_wake, locked_update)
        | inr (user, found) ↦
            rw (found, update_wake, locked_update)
              (commit_other_users user (m user.wake) (turn.others s) k ne)
      ]

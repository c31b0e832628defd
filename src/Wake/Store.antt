-- ===== src/Wake/Store.antt =====
-- crates/rdesk_server/src/wake/store.rs: the one way to change an account's wake data. A handler
-- is an action on the server's state that returns a result.
pub mod Laws
use rdesk.Prelude.{
  ℕ, Text, text_eq, Bool, true, false, none, some, find, update_first, if◌then◌else◌,
}
use rdesk.Map
use rdesk.Server.State.{AppState, UserRecord}
use rdesk.Server.Accounts.{write_user_snapshot}
use rdesk.Wake.Model.{WakeResult, ok, err, not_found, storage, WakeAccountData, prune}
use rdesk.Wake.Devices.{Mutation}

abbrev pub Action : Type 0 → Type 0
Action A = AppState → AppState × WakeResult A

infixl 5 ◌>>=◌ ◌>>◌
abbrev pub ◌>>=◌ : {A B : Type 0} → Action A → (A → Action B) → Action B
◌>>=◌ m f s = let (s', r) = m s in elim r [ ok a ↦ f a s' | err e ↦ (s', err e) ]

abbrev pub ◌>>◌ : {A B : Type 0} → Action A → Action B → Action B
m >> k = m >>= λ _. k

abbrev pub pure : {A : Type 0} → A → Action A
pure a s = (s, ok a)

abbrev pub lift : {A : Type 0} → WakeResult A → Action A
lift r s = (s, r)

abbrev pub gets : {A : Type 0} → (AppState → A) → Action A
gets f s = (s, ok (f s))

abbrev pub modify : (AppState → AppState) → Action (Unit {0})
modify f s = (f s, ok tt)

-- How a wait for the store's lock goes: the time behind it, whether the write to the disk succeeds,
-- and what other requests do to the state in the meantime.
pub record Turn : Type 0 where
  pub now : ℕ
  pub stored : Bool
  pub others : AppState → AppState

abbrev pub is_user : Text → UserRecord → Bool
is_user user_id u = text_eq u.user_id user_id

-- `update_wake` for a user and what the closure returned: prune, write all users, and enter the
-- changed one only if the write succeeded.
unfoldable pub commit_wake :
    {A : Type 0} → Turn → Text → UserRecord → WakeResult (WakeAccountData × A) → Action A
commit_wake turn user_id user (err e) s = (s, err e)
commit_wake turn user_id user (ok (d, value)) s =
    let updated : UserRecord = record user { wake = prune turn.now d } in
    if turn.stored
    then (let s' =
          write_user_snapshot true
            (update_first (is_user user_id) (λ _. updated) (Map.values s.users)) s in
        (record s' { users = Map.insert user_id updated s'.users }, ok value))
    else (
      write_user_snapshot false (update_first (is_user user_id) (λ _. updated) (Map.values s.users))
          s,
      err storage,
    )

unfoldable pub locked_update : {A : Type 0} → Turn → Text → Mutation A → Action A
unfolding commit_wake
locked_update turn user_id mutation s = elim (find (is_user user_id) (Map.values s.users)) [
  | none ↦ (s, err not_found)
  | some user ↦ commit_wake turn user_id user (mutation user.wake) s
]

unfoldable pub update_wake : {A : Type 0} → Turn → Text → Mutation A → Action A
unfolding locked_update
update_wake turn user_id mutation s = locked_update turn user_id mutation (turn.others s)

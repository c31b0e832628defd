-- ===== src/Server/Accounts/Listing.antt =====
-- The list of an account's devices.
use rdesk.Prelude.{
  ℕ, ◌≤◌, ◌≡◌, Text, text_eq, text_eq_refl, Bool, true, ◌&&◌, ◌||◌, Option, some, List, [], ◌∷◌,
  arith, All, Option-cases, Bool-cases, inl, inr,
}
use rdesk.Map
use rdesk.Map.{Map}
use rdesk.Server.State.{
  AppState, UserRecord, AccountPresence, PreviewRegistration, success, is_fresh,
  account_presence_ttl_ms, preview_ttl_ms,
}
use rdesk.Server.Sessions.{authenticated_user}
use rdesk.Server.Accounts.{
  AccountDeviceSummary, present_devices, hosting_devices, hosted_summary, owned_by, insert_latest,
  sort_latest, list_account_devices,
}

-- Each device is as recent as every one behind it.
abbrev pub IsLatestFirst : List AccountDeviceSummary → Type 0
IsLatestFirst [] = Unit
IsLatestFirst (d ∷ ds) = All (λ e. e.updated_at_ms ≤ d.updated_at_ms) ds × IsLatestFirst ds

module _ (P : AccountDeviceSummary → Type 0) where
  All-insert_latest :
      (d : AccountDeviceSummary) (ds : List AccountDeviceSummary)
      → P d
      → All P ds
      → All P (insert_latest d ds)
  unfolding insert_latest
  All-insert_latest d [] p h = (p, tt)
  All-insert_latest d (e ∷ es) p h = ground (arith, All-insert_latest d es p h.1)

  All-sort_latest : (ds : List AccountDeviceSummary) → All P ds → All P (sort_latest ds)
  unfolding sort_latest
  All-sort_latest [] h = tt
  All-sort_latest (d ∷ ds) h = All-insert_latest d (sort_latest ds) h.0 (All-sort_latest ds h.1)

  All-insert :
      (k : Text) (d : AccountDeviceSummary) (m : Map AccountDeviceSummary)
      → P d
      → All P (Map.values m)
      → All P (Map.values (Map.insert k d m))
  unfolding Map.insert Map.values
  All-insert k d [] p h = (p, tt)
  All-insert k d ((i, e) ∷ m) p h = ground (arith, All-insert k d m p h.1)

  All-get :
      (k : Text) (d : AccountDeviceSummary) (m : Map AccountDeviceSummary)
      → All P (Map.values m)
      → Map.get k m ≡ some d
      → P d
  unfolding Map.get Map.values
  All-get k d [] h e = absurd (ground arith)
  All-get k d ((i, x) ∷ m) h e = elim (Bool-cases (text_eq i k)) [
    | inl same ↦ let found : x ≡ d = ground arith in rw (← found) (h.0)
    | inr other ↦ All-get k d m h.1 (ground arith)
  ]

All-later :
    (n m : ℕ) (ds : List AccountDeviceSummary)
    → n ≤ m
    → All (λ e. e.updated_at_ms ≤ n) ds
    → All (λ e. e.updated_at_ms ≤ m) ds
All-later n m [] le h = tt
All-later n m (d ∷ ds) le h = (omega (arith, h.0), All-later n m ds le h.1)

insert_latest-IsLatestFirst :
    (d : AccountDeviceSummary) (ds : List AccountDeviceSummary)
    → IsLatestFirst ds
    → IsLatestFirst (insert_latest d ds)
unfolding insert_latest
insert_latest-IsLatestFirst d [] h = (tt, tt)
insert_latest-IsLatestFirst d (e ∷ es) h = ground (
  arith,
  insert_latest-IsLatestFirst d es h.1,
  λ (le : d.updated_at_ms ≤ e.updated_at_ms).
      All-insert_latest (λ x. x.updated_at_ms ≤ e.updated_at_ms) d es le h.0,
  λ (le : e.updated_at_ms ≤ d.updated_at_ms). All-later e.updated_at_ms d.updated_at_ms es le h.0,
)

sort_latest-IsLatestFirst : (ds : List AccountDeviceSummary) → IsLatestFirst (sort_latest ds)
unfolding sort_latest
sort_latest-IsLatestFirst [] = tt
sort_latest-IsLatestFirst (d ∷ ds) =
    insert_latest-IsLatestFirst d (sort_latest ds) (sort_latest-IsLatestFirst ds)

-- A device that the user has reported, or that is hosted for him.
abbrev pub reported_by : Text → Text → AccountPresence → Bool
reported_by user_id device_id p = text_eq p.user_id user_id && text_eq p.device_id device_id

abbrev pub hosted_for : Text → Text → PreviewRegistration → Bool
hosted_for user_id device_id r = owned_by user_id r.user_id && text_eq r.device_id device_id

abbrev pub IsOwn : Text → AppState → AccountDeviceSummary → Type 0
IsOwn user_id s d =
    (Map.any_value (reported_by user_id d.device_id) s.account_presence
      || Map.any_value (hosted_for user_id d.device_id) s.previews)
    ≡ true

module _ (user_id : Text) (s : AppState) where
  present-IsOwn :
      (now : ℕ) (rest : Map AccountPresence) (devices : Map AccountDeviceSummary)
      → ((device_id : Text)
          → Map.any_value (reported_by user_id device_id) rest ≡ true
          → Map.any_value (reported_by user_id device_id) s.account_presence ≡ true)
      → All (IsOwn user_id s) (Map.values devices)
      → All (IsOwn user_id s) (Map.values (present_devices now user_id rest devices))
  unfolding present_devices Map.any_value
  present-IsOwn now [] devices within h = h
  present-IsOwn now ((k, p) ∷ rest) devices within h =
      present-IsOwn now rest _ (λ device_id e. within device_id (ground arith))
        (elim (Bool-cases
          (text_eq p.user_id user_id && is_fresh now p.updated_at_ms account_presence_ttl_ms)) [
            | inr skipped ↦ rw skipped h
            | inl taken ↦ rw taken (
                All-insert (IsOwn user_id s) p.device_id _ devices
                  (ground (arith, within p.device_id (ground (arith, text_eq_refl p.device_id)))) h)
          ])

  hosted-IsOwn :
      (r : PreviewRegistration) (devices : Map AccountDeviceSummary)
      → Map.any_value (hosted_for user_id r.device_id) s.previews ≡ true
      → All (IsOwn user_id s) (Map.values devices)
      → IsOwn user_id s (hosted_summary r (Map.get r.device_id devices))
  unfolding hosted_summary
  hosted-IsOwn r devices own h = elim (Option-cases (Map.get r.device_id devices)) [
    | inl missing ↦ rw missing (ground arith)
    | inr (d, found) ↦ rw found (All-get (IsOwn user_id s) r.device_id d devices h found)
  ]

  hosting-IsOwn :
      (now : ℕ) (rest : Map PreviewRegistration) (devices : Map AccountDeviceSummary)
      → ((device_id : Text)
          → Map.any_value (hosted_for user_id device_id) rest ≡ true
          → Map.any_value (hosted_for user_id device_id) s.previews ≡ true)
      → All (IsOwn user_id s) (Map.values devices)
      → All (IsOwn user_id s) (Map.values (hosting_devices now user_id rest devices))
  unfolding hosting_devices Map.any_value
  hosting-IsOwn now [] devices within h = h
  hosting-IsOwn now ((k, r) ∷ rest) devices within h =
      hosting-IsOwn now rest _ (λ device_id e. within device_id (ground arith))
        (elim (Bool-cases
          (owned_by user_id r.user_id && is_fresh now r.updated_at_ms preview_ttl_ms)) [
            | inr skipped ↦ rw skipped h
            | inl taken ↦ rw taken (
                All-insert (IsOwn user_id s) r.device_id _ devices
                  (hosted-IsOwn r devices
                    (within r.device_id (ground (arith, text_eq_refl r.device_id))) h)
                  h)
          ])

-- The list of devices that a caller gets is sorted, the latest first, and each device on it is one
-- that the caller has reported or that is hosted for the caller's account.
pub list_account_devices-IsOwn :
    (now : ℕ) (header : Option Text) (s : AppState) (user : UserRecord)
    (devices : List AccountDeviceSummary)
    → (authenticated_user now header s).1 ≡ some user
    → (list_account_devices now header s).1 ≡ success devices
    → IsLatestFirst devices × All (IsOwn user.user_id (authenticated_user now header s).0) devices
unfolding list_account_devices
list_account_devices-IsOwn now header s user devices caller e =
    let s1 = (authenticated_user now header s).0 in
    let present = present_devices now user.user_id s1.account_presence [] in
    let merged = hosting_devices now user.user_id s1.previews present in
    let same : sort_latest (Map.values merged) ≡ devices = ground arith in
    let own =
      hosting-IsOwn user.user_id s1 now s1.previews present (λ device_id h. h)
        (present-IsOwn user.user_id s1 now s1.account_presence [] (λ device_id h. h)
          (unfold Map.values in tt)) in
    rw (← same) (
      sort_latest-IsLatestFirst (Map.values merged),
      All-sort_latest (IsOwn user.user_id s1) (Map.values merged) own,
    )

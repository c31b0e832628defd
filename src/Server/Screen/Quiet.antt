-- ===== src/Server/Screen/Quiet.antt =====
-- crates/rdesk_server/src/main.rs: the stored frames of a host that captures on demand, and what each
-- operation on its screen does to them.
use rdesk.Prelude.{
  ℕ, suc, ◌+◌, ◌≡◌, refl, ap, Text, text_eq, text_eq_iff, Bool, true, false, ◌&&◌, Option, none, [],
  ◌∷◌, arith, is_empty, Bool-cases, Option-cases, inl, inr, if◌then◌else◌,
}
use rdesk.Map
use rdesk.Map.{Map}
use rdesk.Map.Laws.{get-insert, get-remove}
use rdesk.Server.State.{AppState, ScreenDemand, FrameSnapshot, if_state, success, bare}
use rdesk.Server.Sessions.{validate_viewer, validate_host}
use rdesk.Server.Screen.{
  demand_of, put_demand, captures_on_demand, clear_demand_frames, prune_screen_demand, live_viewers,
  grant_lease, renew_screen_lease, release_screen_lease, stop_viewer_screen, close_viewer_session,
  host_screen_demand, disconnect_viewers_for_device, without_token,
}

-- A device whose host captures on demand has no stored frame while nobody holds a lease.
abbrev pub IsQuietAt : Text → AppState → Type 0
IsQuietAt j s =
    captures_on_demand j s ≡ true
    → is_empty (demand_of j s).viewers ≡ true
    → Map.get j s.frames ≡ none

abbrev pub IsQuiet : AppState → Type 0
IsQuiet s = (j : Text) → IsQuietAt j s

pub is_empty-insert {ℓ} :
    {V : Type ℓ} (k : Text) (v : V) (m : Map V) → is_empty (Map.insert k v m) ≡ false
unfolding Map.insert
is_empty-insert k v [] = refl
is_empty-insert k v ((i, w) ∷ m) = ground arith

pub demand_of-put_demand :
    (j device_id : Text) (d : ScreenDemand) (s : AppState)
    → demand_of j (put_demand device_id d s) ≡ (if text_eq device_id j then d else demand_of j s)
unfolding demand_of put_demand
demand_of-put_demand j device_id d s = ground (arith, get-insert j device_id d s.screen_demands)

pub put_demand_rest :
    (device_id : Text) (d : ScreenDemand) (s : AppState)
    → ((put_demand device_id d s).frames ≡ s.frames)
      × ((put_demand device_id d s).previews ≡ s.previews)
unfolding put_demand
put_demand_rest device_id d s = (refl, refl)

pub clear-frames :
    (j device_id : Text) (s : AppState)
    → Map.get j (clear_demand_frames device_id s).frames
      ≡ (if captures_on_demand device_id s && text_eq device_id j then none else Map.get j s.frames)
unfolding clear_demand_frames
clear-frames j device_id s = ground (arith, get-remove j device_id s.frames)

pub clear_rest :
    (device_id : Text) (s : AppState)
    → ((clear_demand_frames device_id s).previews ≡ s.previews)
      × ((clear_demand_frames device_id s).screen_demands ≡ s.screen_demands)
      × ((clear_demand_frames device_id s).viewer_sessions ≡ s.viewer_sessions)
unfolding clear_demand_frames
clear_rest device_id s = ground arith

pub validate_viewer_rest :
    (now : ℕ) (device_id token : Text) (s : AppState)
    → ((validate_viewer now device_id token s).0.previews ≡ s.previews)
      × ((validate_viewer now device_id token s).0.frames ≡ s.frames)
      × ((validate_viewer now device_id token s).0.screen_demands ≡ s.screen_demands)
unfolding validate_viewer
validate_viewer_rest now device_id token s = ground arith

-- Whether the state is quiet at a device, told by what it shows of it.
abbrev QuietView : Bool → Bool → Option FrameSnapshot → Type 0
QuietView on_demand alone frame = on_demand ≡ true → alone ≡ true → frame ≡ none

pub put-prune-IsQuiet :
    (now : ℕ) (device_id : Text) (s : AppState) (j : Text)
    → IsQuietAt j s
    → IsQuietAt j (
        put_demand device_id
          (prune_screen_demand now device_id (demand_of device_id s) s).1
          (prune_screen_demand now device_id (demand_of device_id s) s).0)
unfolding prune_screen_demand put_demand demand_of
put-prune-IsQuiet now device_id s j q on alone = ground (
  arith,
  text_eq_iff device_id j,
  get-insert j device_id
      (record (demand_of device_id s) { viewers = live_viewers now s (demand_of device_id s) })
      s.screen_demands,
  get-remove j device_id s.frames,
)

-- Quietness reads three tables only.
quiet_same :
    (s t : AppState) (j : Text)
    → t.previews ≡ s.previews
    → t.frames ≡ s.frames
    → t.screen_demands ≡ s.screen_demands
    → IsQuietAt j s
    → IsQuietAt j t
unfolding demand_of
quiet_same s t j p f d q on alone = ground arith

prune-IsQuiet :
    (now : ℕ) (device_id : Text) (d : ScreenDemand) (s : AppState) (j : Text)
    → IsQuietAt j s
    → IsQuietAt j (prune_screen_demand now device_id d s).0
unfolding prune_screen_demand demand_of
prune-IsQuiet now device_id d s j q on alone = ground (arith, get-remove j device_id s.frames)

pub validate-IsQuiet :
    (now : ℕ) (device_id token : Text) (s : AppState) (j : Text)
    → IsQuietAt j s
    → IsQuietAt j (validate_viewer now device_id token s).0
validate-IsQuiet now device_id token s j q =
    let rest = validate_viewer_rest now device_id token s in
    quiet_same s (validate_viewer now device_id token s).0 j rest.0 rest.1 rest.2 q

grant-IsQuiet :
    (now : ℕ) (device_id token key : Text) (d : ScreenDemand) (s : AppState) (j : Text)
    → IsQuietAt j s
    → IsQuietAt j (grant_lease now device_id token key d s)
unfolding grant_lease demand_of
grant-IsQuiet now device_id token key d s j q on alone = ground (
  arith,
  text_eq_iff device_id j,
  get-remove j device_id s.frames,
  is_empty-insert key (token, now + 10000) d.viewers,
  get-insert j device_id
      (record { epoch = suc d.epoch; viewers = Map.insert key (token, now + 10000) d.viewers })
      s.screen_demands,
  get-insert j device_id (record d { viewers = Map.insert key (token, now + 10000) d.viewers })
      s.screen_demands,
)

pub renew-IsQuiet :
    (now : ℕ) (device_id token key : Text) (s : AppState) (j : Text)
    → IsQuietAt j s
    → IsQuietAt j (renew_screen_lease now device_id token key s).0
unfolding renew_screen_lease
renew-IsQuiet now device_id token key s j q =
    let d = demand_of device_id s in
    let pruned = prune_screen_demand now device_id d s in
    let checked = validate_viewer now device_id token pruned.0 in
    if_state (IsQuietAt j) checked.1 (grant_lease now device_id token key pruned.1 checked.0, true)
      (put_demand device_id pruned.1 checked.0, false)
      (grant-IsQuiet now device_id token key pruned.1 checked.0 j
        (validate-IsQuiet now device_id token pruned.0 j (prune-IsQuiet now device_id d s j q)))
      (refused pruned.0 pruned.1 (put-prune-IsQuiet now device_id s j q))
  where
    refused :
        (t : AppState) (d : ScreenDemand)
        → IsQuietAt j (put_demand device_id d t)
        → IsQuietAt j (put_demand device_id d (validate_viewer now device_id token t).0)
    refused t d h =
        let rest = validate_viewer_rest now device_id token t in
        unfold put_demand in
        quiet_same (put_demand device_id d t)
          (put_demand device_id d (validate_viewer now device_id token t).0) j rest.0 rest.1
          (ap (Map.insert device_id d) rest.2) h

-- The end of `release_screen_lease` and of `stop_viewer_screen`.
settle-IsQuiet :
    (device_id : Text) (d : ScreenDemand) (s : AppState) (j : Text)
    → IsQuietAt j s
    → IsQuietAt j
        (put_demand device_id d (if is_empty d.viewers then clear_demand_frames device_id s else s))
unfolding put_demand demand_of clear_demand_frames
settle-IsQuiet device_id d s j q on alone = ground (
  arith,
  text_eq_iff device_id j,
  get-remove j device_id s.frames,
  get-insert j device_id d s.screen_demands,
)

pub release-IsQuiet :
    (now : ℕ) (device_id key : Text) (s : AppState) (j : Text)
    → IsQuietAt j s
    → IsQuietAt j (release_screen_lease now device_id key s)
unfolding release_screen_lease
release-IsQuiet now device_id key s j q = elim (Option-cases (Map.get device_id s.screen_demands)) [
  | inl missing ↦ rw (missing, release_screen_lease) q
  | inr (demand, found) ↦
      let d = record demand { viewers = Map.remove key demand.viewers } in
      let pruned = prune_screen_demand now device_id d s in
      rw (found, release_screen_lease)
        (settle-IsQuiet device_id pruned.1 pruned.0 j (prune-IsQuiet now device_id d s j q))
]

-- Writing back the entry that `or_default` gives.
default-IsQuiet :
    (device_id : Text) (s t : AppState) (j : Text)
    → t.screen_demands ≡ s.screen_demands
    → IsQuietAt j t
    → IsQuietAt j (put_demand device_id (demand_of device_id s) t)
unfolding put_demand demand_of
default-IsQuiet device_id s t j e q on alone = ground (
  arith,
  text_eq_iff device_id j,
  get-insert j device_id (demand_of device_id s) t.screen_demands,
)

pub stop-IsQuiet :
    (now : ℕ) (device_id token : Text) (s : AppState) (j : Text)
    → IsQuietAt j s
    → IsQuietAt j (stop_viewer_screen now device_id token s).0
unfolding stop_viewer_screen
stop-IsQuiet now device_id token s j q =
    let checked = validate_viewer now device_id token s in
    let quiet = validate-IsQuiet now device_id token s j q in
    let d = without_token token (demand_of device_id s) in
    if_state (IsQuietAt j) checked.1
      (
        put_demand device_id d
            (if is_empty d.viewers then clear_demand_frames device_id checked.0 else checked.0),
        success true,
      )
      (put_demand device_id (demand_of device_id s) checked.0, bare 401)
      (settle-IsQuiet device_id d checked.0 j quiet)
      (default-IsQuiet device_id s checked.0 j (validate_viewer_rest now device_id token s).2 quiet)

pub close-IsQuiet :
    (now : ℕ) (device_id token : Text) (s : AppState) (j : Text)
    → IsQuietAt j s
    → IsQuietAt j (close_viewer_session now device_id token s).0
unfolding close_viewer_session
close-IsQuiet now device_id token s j q =
    let checked = validate_viewer now device_id token s in
    let quiet = validate-IsQuiet now device_id token s j q in
    let t = record checked.0 { viewer_sessions = Map.remove token checked.0.viewer_sessions } in
    let pruned = prune_screen_demand now device_id (demand_of device_id t) t in
    if_state (IsQuietAt j) checked.1 (put_demand device_id pruned.1 pruned.0, success true)
      (put_demand device_id (demand_of device_id s) checked.0, bare 401)
      (put-prune-IsQuiet now device_id t j (quiet_same checked.0 t j refl refl refl quiet))
      (default-IsQuiet device_id s checked.0 j (validate_viewer_rest now device_id token s).2 quiet)

pub host_demand-IsQuiet :
    (now : ℕ) (device_id host_token : Text) (s : AppState) (j : Text)
    → IsQuietAt j s
    → IsQuietAt j (host_screen_demand now device_id host_token s).0
unfolding host_screen_demand
host_demand-IsQuiet now device_id host_token s j q =
    elim (Bool-cases (validate_host now device_id host_token s)) [
      | inl valid ↦ rw (valid, host_screen_demand) (put-prune-IsQuiet now device_id s j q)
      | inr invalid ↦ rw (invalid, host_screen_demand) q
    ]

pub disconnect-IsQuiet :
    (device_id : Text) (s : AppState) (j : Text)
    → IsQuietAt j s
    → IsQuietAt j (disconnect_viewers_for_device device_id s)
unfolding disconnect_viewers_for_device put_demand demand_of
disconnect-IsQuiet device_id s j q on alone = ground (
  arith,
  text_eq_iff device_id j,
  get-remove j device_id s.frames,
  get-insert j device_id (record (demand_of device_id s) { viewers = [] }) s.screen_demands,
)

-- ===== src/Server/Screen.antt =====
-- crates/rdesk_server/src/main.rs: the leases on a device's screen. A host that captures on demand
-- uploads frames only while somebody holds a lease, and the epoch counts the audiences.
pub mod Quiet
use rdesk.Prelude.{
  ℕ, suc, ◌+◌, ◌-◌, max, Text, text_eq, Bool, true, false, ◌&&◌, not, none, some, List, [], ◌∷◌,
  ltb, if◌then◌else◌, is_empty, is_some_and,
}
use rdesk.Map
use rdesk.Map.{Map}
use rdesk.Server.State.{
  AppState, ScreenDemand, no_demand, Response, success, bare, screen_lease_ms, PreviewRegistration,
}
use rdesk.Server.Sessions.{validate_viewer, validate_host}

-- `entry(device_id).or_default()`; the entry itself is written by `put_demand`.
unfoldable pub demand_of : Text → AppState → ScreenDemand
demand_of device_id s = elim (Map.get device_id s.screen_demands) [ none ↦ no_demand | some d ↦ d ]

unfoldable pub put_demand : Text → ScreenDemand → AppState → AppState
put_demand device_id d s = record s { screen_demands = Map.insert device_id d s.screen_demands }

abbrev pub captures_on_demand : Text → AppState → Bool
captures_on_demand device_id s =
    is_some_and (λ (host : PreviewRegistration). host.on_demand_capture)
      (Map.get device_id s.previews)

unfoldable pub clear_demand_frames : Text → AppState → AppState
clear_demand_frames device_id s =
    if captures_on_demand device_id s
    then record s { frames = Map.remove device_id s.frames }
    else s

-- A lease that runs, held by a session that is still there.
abbrev pub lease_lives : ℕ → AppState → Text × ℕ → Bool
lease_lives now s (token, until) = ltb now until && Map.contains_key token s.viewer_sessions

abbrev pub live_viewers : ℕ → AppState → ScreenDemand → Map (Text × ℕ)
live_viewers now s d = Map.retain (λ _ lease. lease_lives now s lease) d.viewers

unfoldable pub prune_screen_demand : ℕ → Text → ScreenDemand → AppState → AppState × ScreenDemand
unfolding clear_demand_frames
prune_screen_demand now device_id d s = (
  if not (is_empty d.viewers) && is_empty (live_viewers now s d)
      then clear_demand_frames device_id s
      else s,
  record d { viewers = live_viewers now s d },
)

-- The part of `renew_screen_lease` behind the check of the viewer: a first viewer begins an epoch.
unfoldable pub grant_lease : ℕ → Text → Text → Text → ScreenDemand → AppState → AppState
unfolding put_demand clear_demand_frames
grant_lease now device_id token key d s =
    let viewers = Map.insert key (token, now + screen_lease_ms) d.viewers in
    if is_empty d.viewers
    then put_demand device_id (record { epoch = suc d.epoch; viewers = viewers })
        (clear_demand_frames device_id s)
    else put_demand device_id (record d { viewers = viewers }) s

unfoldable pub renew_screen_lease : ℕ → Text → Text → Text → AppState → AppState × Bool
unfolding demand_of put_demand
renew_screen_lease now device_id token key s =
    let (s1, d) = prune_screen_demand now device_id (demand_of device_id s) s in
    let (s2, valid) = validate_viewer now device_id token s1 in
    if valid
    then (grant_lease now device_id token key d s2, true)
    else (put_demand device_id d s2, false)

unfoldable pub release_screen_lease : ℕ → Text → Text → AppState → AppState
unfolding put_demand
release_screen_lease now device_id key s = elim (Map.get device_id s.screen_demands) [
  | none ↦ s
  | some demand ↦
      let (s1, d) =
        prune_screen_demand now device_id
          (record demand { viewers = Map.remove key demand.viewers }) s in
      put_demand device_id d (if is_empty d.viewers then clear_demand_frames device_id s1 else s1)
]

unfoldable pub screen_lease_alive : ℕ → Text → Text → AppState → Bool
screen_lease_alive now device_id key s =
    is_some_and (λ d. is_some_and (lease_lives now s) (Map.get key d.viewers))
      (Map.get device_id s.screen_demands)

-- `values().map(|(_, until)| until).max().unwrap_or(0)`.
unfoldable pub latest : List (Text × ℕ) → ℕ
latest [] = 0
latest ((token, until) ∷ rest) = max until (latest rest)

pub record DemandView : Type 0 where
  pub capture_epoch : ℕ
  pub viewers : ℕ
  pub expires_in_ms : ℕ

unfoldable pub host_screen_demand : ℕ → Text → Text → AppState → AppState × Response DemandView
unfolding demand_of put_demand latest
host_screen_demand now device_id host_token s =
    if validate_host now device_id host_token s
    then (let (s1, d) = prune_screen_demand now device_id (demand_of device_id s) s in
        (
          put_demand device_id d s1,
          success (record {
            capture_epoch = d.epoch;
            viewers = Map.size d.viewers;
            expires_in_ms = latest (Map.values d.viewers) - now;
          }),
        ))
    else (s, bare 401)

-- `retain(|_, (token, _)| token != &query.token)`.
abbrev pub without_token : Text → ScreenDemand → ScreenDemand
without_token token d = record d {
  viewers = Map.retain (λ _ lease. not (text_eq lease.0 token)) d.viewers;
}

-- `/session/screen/stop`. The demand's entry is made even where the viewer is refused.
unfoldable pub stop_viewer_screen : ℕ → Text → Text → AppState → AppState × Response Bool
unfolding demand_of put_demand
stop_viewer_screen now device_id token s =
    let (s1, valid) = validate_viewer now device_id token s in
    if valid
    then (let d = without_token token (demand_of device_id s) in
        (
          put_demand device_id d
              (if is_empty d.viewers then clear_demand_frames device_id s1 else s1),
          success true,
        ))
    else (put_demand device_id (demand_of device_id s) s1, bare 401)

-- `/session/close`.
unfoldable pub close_viewer_session : ℕ → Text → Text → AppState → AppState × Response Bool
unfolding demand_of put_demand
close_viewer_session now device_id token s =
    let (s1, valid) = validate_viewer now device_id token s in
    if valid
    then (let s2 = record s1 { viewer_sessions = Map.remove token s1.viewer_sessions } in
        let (s3, d) = prune_screen_demand now device_id (demand_of device_id s2) s2 in
        (put_demand device_id d s3, success true))
    else (put_demand device_id (demand_of device_id s) s1, bare 401)

unfoldable pub disconnect_viewers_for_device : Text → AppState → AppState
unfolding demand_of put_demand
disconnect_viewers_for_device device_id s =
    put_demand device_id (record (demand_of device_id s) { viewers = [] })
      (record s {
        viewer_sessions =
            Map.retain (λ _ session. not (text_eq session.device_id device_id)) s.viewer_sessions;
        frames = Map.remove device_id s.frames;
      })

-- ===== src/Server/Previews/Epochs.antt =====
-- The epochs of a screen's audiences, and the uploads that come too late.
use rdesk.Prelude.{
  ℕ, suc, ◌+◌, ◌≤◌, ◌<◌, ◌≡◌, Text, text_eq_refl, true, none, some, List, arith, is_empty, ◌⊎◌,
}
use rdesk.Map
use rdesk.Map.Laws.{get-insert, get-remove}
use rdesk.Server.State.{AppState, ScreenDemand, bare}
use rdesk.Server.Sessions.{validate_viewer}
use rdesk.Server.Screen.{
  demand_of, put_demand, prune_screen_demand, renew_screen_lease, live_viewers, captures_on_demand,
  clear_demand_frames, grant_lease,
}
use rdesk.Server.Screen.Quiet.{validate_viewer_rest}
use rdesk.Server.Previews.{FrameUpload, upload_frame, receive_frame}
use rdesk.Server.Previews.Audience.{epoch_of}

prune-epoch :
    (now : ℕ) (device_id : Text) (d : ScreenDemand) (s : AppState)
    → ((prune_screen_demand now device_id d s).1.epoch ≡ d.epoch)
      × ((prune_screen_demand now device_id d s).1.viewers ≡ live_viewers now s d)
      × ((prune_screen_demand now device_id d s).0.previews ≡ s.previews)
unfolding prune_screen_demand clear_demand_frames
prune-epoch now device_id d s = ground arith

-- The first lease begins a new epoch, without a frame of the last.
grant-first :
    (now : ℕ) (device_id token key : Text) (d : ScreenDemand) (s : AppState)
    → is_empty d.viewers ≡ true
    → captures_on_demand device_id s ≡ true
    → let t = grant_lease now device_id token key d s in
      (epoch_of device_id t ≡ suc d.epoch)
      × (Map.get device_id t.frames ≡ none)
      × (t.previews ≡ s.previews)
unfolding grant_lease demand_of
grant-first now device_id token key d s e on = (
  ground (
    arith,
    text_eq_refl device_id,
    get-insert device_id device_id
        (record { epoch = suc d.epoch; viewers = Map.insert key (token, now + 10000) d.viewers })
        s.screen_demands,
  ),
  ground (arith, text_eq_refl device_id, get-remove device_id device_id s.frames),
  ground arith,
)

-- An upload for an on-demand host whose epoch is not the present one is refused, and the frames
-- stay as they are or are cleared.
upload_outdated :
    (now : ℕ) (query : FrameUpload) (body : List ℕ) (s : AppState) (e : ℕ)
    → captures_on_demand query.device_id s ≡ true
    → query.capture_epoch ≡ some e
    → e < epoch_of query.device_id s
    → Map.get query.device_id s.frames ≡ none
    → (((upload_frame now query body s).1 ≡ bare 409)
        ⊎ ((upload_frame now query body s).1 ≡ bare 401))
      × (Map.get query.device_id (upload_frame now query body s).0.frames ≡ none)
unfolding upload_frame receive_frame prune_screen_demand clear_demand_frames put_demand
upload_outdated now query body s e on given old empty =
    (ground arith, ground (arith, get-remove query.device_id query.device_id s.frames))

renew_begins :
    (now : ℕ) (device_id token key : Text) (s : AppState)
    → is_empty (live_viewers now s (demand_of device_id s)) ≡ true
    → captures_on_demand device_id s ≡ true
    → (renew_screen_lease now device_id token key s).1 ≡ true
    → let t = (renew_screen_lease now device_id token key s).0 in
      (epoch_of device_id t ≡ suc (epoch_of device_id s))
      × (Map.get device_id t.frames ≡ none)
      × (captures_on_demand device_id t ≡ true)
unfolding renew_screen_lease
renew_begins now device_id token key s alone on renewed =
    let d = demand_of device_id s in
    let pruned = prune_screen_demand now device_id d s in
    let checked = validate_viewer now device_id token pruned.0 in
    let facts = prune-epoch now device_id d s in
    let rest = validate_viewer_rest now device_id token pruned.0 in
    let first =
      grant-first now device_id token key pruned.1 checked.0 (rw (facts.1) alone)
        (rw (rest.0, facts.2) on) in
    let granted : (renew_screen_lease now device_id token key s).0
        ≡ grant_lease now device_id token key pruned.1 checked.0 =
      ground arith in
    rw granted (ground (arith, first.0, facts.0), first.1, rw (first.2, rest.0, facts.2) on)

-- When a new audience begins, its first lease opens an epoch with no frame, and an upload that
-- carries the epoch of an earlier audience is refused and leaves no frame.
pub old_epoch_refused :
    (now later e : ℕ) (token key : Text) (query : FrameUpload) (body : List ℕ) (s : AppState)
    → is_empty (live_viewers now s (demand_of query.device_id s)) ≡ true
    → captures_on_demand query.device_id s ≡ true
    → (renew_screen_lease now query.device_id token key s).1 ≡ true
    → query.capture_epoch ≡ some e
    → e ≤ epoch_of query.device_id s
    → let t = (renew_screen_lease now query.device_id token key s).0 in
      (Map.get query.device_id t.frames ≡ none)
      × (((upload_frame later query body t).1 ≡ bare 409)
          ⊎ ((upload_frame later query body t).1 ≡ bare 401))
      × (Map.get query.device_id (upload_frame later query body t).0.frames ≡ none)
old_epoch_refused now later e token key query body s alone on renewed given old =
    let begun = renew_begins now query.device_id token key s alone on renewed in
    let t = (renew_screen_lease now query.device_id token key s).0 in
    let outdated =
      upload_outdated later query body t e begun.2 given (omega (arith, begun.0)) begun.1 in
    (begun.1, outdated.0, outdated.1)

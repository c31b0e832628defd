-- ===== src/Server/Previews/Audience.antt =====
-- The audience of a screen over any sequence of requests that touch it.
use rdesk.Prelude.{
  ℕ, ◌≡◌, Text, text_eq_iff, text_eq_refl, true, none, false, not, ◌&&◌, ◌||◌, List, [], ◌∷◌, arith,
  is_empty, Bool-cases, inl, inr, if◌then◌else◌,
}
use rdesk.Map
use rdesk.Map.Laws.{get-insert, get-remove}
use rdesk.Server.State.{AppState, ScreenDemand, success, bare, if_state, WsFrame}
use rdesk.Server.Sessions.{validate_viewer, validate_host}
use rdesk.Server.Screen.{
  demand_of, put_demand, prune_screen_demand, renew_screen_lease, release_screen_lease,
  stop_viewer_screen, close_viewer_session, host_screen_demand, captures_on_demand,
  disconnect_viewers_for_device, clear_demand_frames,
}
use rdesk.Server.Screen.Quiet.{
  IsQuiet, IsQuietAt, renew-IsQuiet, release-IsQuiet, stop-IsQuiet, close-IsQuiet,
  host_demand-IsQuiet, disconnect-IsQuiet, validate-IsQuiet, put-prune-IsQuiet,
}
use rdesk.Server.Previews.{
  FrameUpload, upload_frame, receive_frame, frame_answer, fetch_frame, store_frame, broadcast,
  epoch_matches, unregister_preview, remove_preview_state, disconnect_viewers,
}

broadcast_rest :
    (device_id : Text) (frame : WsFrame) (s : AppState)
    → ((broadcast device_id frame s).frames ≡ s.frames)
      × ((broadcast device_id frame s).previews ≡ s.previews)
      × ((broadcast device_id frame s).screen_demands ≡ s.screen_demands)
unfolding broadcast
broadcast_rest device_id frame s = ground arith

-- Storing a frame is quiet where the host does not capture on demand, or somebody watches.
store-IsQuiet :
    (now : ℕ) (device_id : Text) (width height captured : ℕ) (bytes : List ℕ) (s : AppState)
    (j : Text)
    → (captures_on_demand device_id s && is_empty (demand_of device_id s).viewers) ≡ false
    → IsQuietAt j s
    → IsQuietAt j (store_frame now device_id width height captured bytes s)
unfolding store_frame broadcast demand_of
store-IsQuiet now device_id width height captured bytes s j allowed q on alone = ground (
  arith,
  text_eq_iff device_id j,
  get-insert j device_id
      (record {
        bytes = bytes;
        width = width;
        height = height;
        captured_at_ms = captured;
        relay_received_at_ms = now;
        updated_at_ms = now;
      })
      s.frames,
)

receive-IsQuiet :
    (now : ℕ) (query : FrameUpload) (body : List ℕ) (d : ScreenDemand) (s : AppState) (j : Text)
    → demand_of query.device_id s ≡ d
    → IsQuietAt j s
    → IsQuietAt j (receive_frame now query body (captures_on_demand query.device_id s) d s).0
unfolding receive_frame
receive-IsQuiet now query body d s j e q =
    let watched = epoch_matches query.capture_epoch d in
    let on_demand = captures_on_demand query.device_id s in
    elim (Bool-cases (on_demand && (is_empty d.viewers || not watched))) [
      | inl refused ↦ rw (refused, receive_frame) q
      | inr accepted ↦
          rw (accepted, receive_frame)
            (store-IsQuiet now query.device_id query.width query.height _ body s j
              (allowed accepted) q)
    ]
  where
    allowed :
        (captures_on_demand query.device_id s
            && (is_empty d.viewers || not (epoch_matches query.capture_epoch d)))
          ≡ false
        → (captures_on_demand query.device_id s && is_empty (demand_of query.device_id s).viewers)
          ≡ false
    allowed accepted = rw e (ground arith)

upload-IsQuiet :
    (now : ℕ) (query : FrameUpload) (body : List ℕ) (s : AppState) (j : Text)
    → IsQuietAt j s
    → IsQuietAt j (upload_frame now query body s).0
unfolding upload_frame
upload-IsQuiet now query body s j q =
    elim (Bool-cases (validate_host now query.device_id query.host_token s)) [
      | inr invalid ↦ rw (invalid, upload_frame) q
      | inl valid ↦
          rw (valid, upload_frame)
            (rw (← same_previews) (
              receive-IsQuiet now query body pruned.1 (put_demand query.device_id pruned.1 pruned.0)
                j
                (unfold demand_of put_demand in
                  ground (
                    arith,
                    text_eq_refl query.device_id,
                    get-insert query.device_id query.device_id pruned.1 pruned.0.screen_demands,
                  ))
                (put-prune-IsQuiet now query.device_id s j q)))
    ]
  where
    pruned : AppState × ScreenDemand
    pruned = prune_screen_demand now query.device_id (demand_of query.device_id s) s

    same_previews :
        captures_on_demand query.device_id (put_demand query.device_id pruned.1 pruned.0)
        ≡ captures_on_demand query.device_id s
    same_previews = unfold put_demand prune_screen_demand clear_demand_frames in ground arith

fetch-IsQuiet :
    (now : ℕ) (device_id token : Text) (s : AppState) (j : Text)
    → IsQuietAt j s
    → IsQuietAt j (fetch_frame now device_id token s).0
unfolding fetch_frame
fetch-IsQuiet now device_id token s j q =
    let checked = validate_viewer now device_id token s in
    let quiet = validate-IsQuiet now device_id token s j q in
    let renewed = renew_screen_lease now device_id token token checked.0 in
    let quiet' = renew-IsQuiet now device_id token token checked.0 j quiet in
    if_state (IsQuietAt j) checked.1
      (
        renewed.0,
        if renewed.1 then frame_answer now (Map.get device_id renewed.0.frames) else bare 401,
      )
      (checked.0, bare 401) quiet' quiet

remove-IsQuiet :
    (device_id : Text) (s : AppState) (j : Text)
    → IsQuietAt j s
    → IsQuietAt j (remove_preview_state device_id s)
unfolding remove_preview_state disconnect_viewers_for_device put_demand demand_of
remove-IsQuiet device_id s j q on alone = ground (
  arith,
  text_eq_iff device_id j,
  get-remove j device_id s.frames,
  get-remove j device_id (Map.remove device_id s.frames),
  get-remove j device_id s.previews,
  get-insert j device_id (record (demand_of device_id s) { viewers = [] }) s.screen_demands,
)

-- The requests on a screen, and the removal of a host. `refreshes` is the lease that a WebSocket
-- viewer renews under a key of its own.
pub data ScreenEvent : Type 0 where
  refreshes : ℕ → Text → Text → Text → ScreenEvent
  releases : ℕ → Text → Text → ScreenEvent
  stops closes fetches : ℕ → Text → Text → ScreenEvent
  asks unregisters disconnects : ℕ → Text → Text → ScreenEvent
  uploads : ℕ → FrameUpload → List ℕ → ScreenEvent

unfoldable pub apply : ScreenEvent → AppState → AppState
apply (refreshes now device_id token key) s = (renew_screen_lease now device_id token key s).0
apply (releases now device_id key) s = release_screen_lease now device_id key s
apply (stops now device_id token) s = (stop_viewer_screen now device_id token s).0
apply (closes now device_id token) s = (close_viewer_session now device_id token s).0
apply (fetches now device_id token) s = (fetch_frame now device_id token s).0
apply (asks now device_id host_token) s = (host_screen_demand now device_id host_token s).0
apply (unregisters now device_id host_token) s = (unregister_preview now device_id host_token s).0
apply (disconnects now device_id host_token) s = (disconnect_viewers now device_id host_token s).0
apply (uploads now query body) s = (upload_frame now query body s).0

unfoldable pub run : List ScreenEvent → AppState → AppState
run [] s = s
run (e ∷ es) s = run es (apply e s)

apply-IsQuiet : (e : ScreenEvent) (s : AppState) → IsQuiet s → IsQuiet (apply e s)
unfolding apply unregister_preview disconnect_viewers
apply-IsQuiet (refreshes now device_id token key) s q j =
    renew-IsQuiet now device_id token key s j (q j)
apply-IsQuiet (releases now device_id key) s q j = release-IsQuiet now device_id key s j (q j)
apply-IsQuiet (stops now device_id token) s q j = stop-IsQuiet now device_id token s j (q j)
apply-IsQuiet (closes now device_id token) s q j = close-IsQuiet now device_id token s j (q j)
apply-IsQuiet (fetches now device_id token) s q j = fetch-IsQuiet now device_id token s j (q j)
apply-IsQuiet (asks now device_id host_token) s q j =
    host_demand-IsQuiet now device_id host_token s j (q j)
apply-IsQuiet (unregisters now device_id host_token) s q j =
    if_state (IsQuietAt j) (validate_host now device_id host_token s)
      (remove_preview_state device_id s, 200) (s, 401) (remove-IsQuiet device_id s j (q j)) (q j)
apply-IsQuiet (disconnects now device_id host_token) s q j =
    if_state (IsQuietAt j) (validate_host now device_id host_token s)
      (disconnect_viewers_for_device device_id s, success true) (s, bare 401)
      (disconnect-IsQuiet device_id s j (q j)) (q j)
apply-IsQuiet (uploads now query body) s q j = upload-IsQuiet now query body s j (q j)

run-IsQuiet : (es : List ScreenEvent) (s : AppState) → IsQuiet s → IsQuiet (run es s)
unfolding run
run-IsQuiet [] s q = q
run-IsQuiet (e ∷ es) s q = run-IsQuiet es (apply e s) (apply-IsQuiet e s q)

-- Whatever requests come to a server whose state is quiet, a host that captures on demand has no
-- frame stored while nobody watches.
pub unwatched_has_no_frame :
    (es : List ScreenEvent) (s : AppState) (device_id : Text)
    → IsQuiet s
    → captures_on_demand device_id (run es s) ≡ true
    → is_empty (demand_of device_id (run es s)).viewers ≡ true
    → Map.get device_id (run es s).frames ≡ none
unwatched_has_no_frame es s device_id q = run-IsQuiet es s q device_id

abbrev pub epoch_of : Text → AppState → ℕ
epoch_of j s = (demand_of j s).epoch

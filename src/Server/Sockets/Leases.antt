-- ===== src/Server/Sockets/Leases.antt =====
-- crates/rdesk_server/src/main.rs: what the lease of a viewer's socket holds open, and its end.
use rdesk.Prelude.{
  ℕ, ◌≡◌, refl, Text, text_eq_refl, Bool, true, false, List, [], ◌∷◌, ◌++◌, arith, Bytes,
  if◌then◌else◌, Option-cases, inl, inr,
}
use rdesk.Map
use rdesk.Map.Laws.{get-insert, get-retain, get-remove}
use rdesk.Server.State.{AppState, ScreenDemand}
use rdesk.Server.Screen.{
  release_screen_lease, screen_lease_alive, prune_screen_demand, put_demand, clear_demand_frames,
}
use rdesk.Server.Sockets.{
  ViewerEvent, ping_tick, frame, lagged, frames_over, pong, command, viewer_close, other_message,
  viewer_event, viewer_loop,
}

-- No packet goes out without a lease that runs.
pub viewer_event-sent :
    (device_id token key : Text) (others : AppState → AppState) (now : ℕ) (event : ViewerEvent)
    (s : AppState) (p : Bytes) (ps : List Bytes)
    → (viewer_event device_id token key others now event s).sent ≡ p ∷ ps
    → screen_lease_alive now device_id key s ≡ true
unfolding viewer_event
viewer_event-sent device_id token key others now (ping_tick d) s p ps e = ground arith
viewer_event-sent device_id token key others now (frame f d) s p ps e = ground arith
viewer_event-sent device_id token key others now lagged s p ps e = absurd (ground arith)
viewer_event-sent device_id token key others now frames_over s p ps e = absurd (ground arith)
viewer_event-sent device_id token key others now pong s p ps e = ground arith
viewer_event-sent device_id token key others now (command c) s p ps e = absurd (ground arith)
viewer_event-sent device_id token key others now viewer_close s p ps e = absurd (ground arith)
viewer_event-sent device_id token key others now other_message s p ps e = absurd (ground arith)

-- A lease that is released runs no more, at any time.
release_ends :
    (now later : ℕ) (device_id key : Text) (s : AppState)
    → screen_lease_alive later device_id key (release_screen_lease now device_id key s) ≡ false
unfolding release_screen_lease prune_screen_demand put_demand clear_demand_frames screen_lease_alive
release_ends now later device_id key s = elim (Option-cases (Map.get device_id s.screen_demands)) [
  | inl missing ↦ rw (release_screen_lease, missing) (rw (screen_lease_alive, missing) refl)
  | inr (demand, found) ↦
      rw
        (
          release_screen_lease,
          found,
          screen_lease_alive,
          get-insert {V = ScreenDemand} device_id device_id,
          text_eq_refl device_id,
          get-retain {V = Text × ℕ} key,
          get-remove {V = Text × ℕ} key key,
          text_eq_refl key,
        )
        refl
]

-- How the loop goes on, or ends, after a round.
abbrev after_round :
    Bool → AppState × List Bytes × Bool → List Bytes → AppState → AppState × List Bytes × Bool
after_round goes_on rest sent t =
    if goes_on then (rest.0, sent ++ rest.1, rest.2) else (t, sent, true)

-- Once a viewer's socket is done, however it came to its end and whatever has gone on beside it, its
-- lease runs no more.
pub viewer_loop-ends :
    (later : ℕ) (device_id token key : Text) (others : AppState → AppState)
    (events : List (ℕ × ViewerEvent)) (s : AppState)
    → (viewer_loop device_id token key others events s).2 ≡ true
    → screen_lease_alive later device_id key (viewer_loop device_id token key others events s).0
      ≡ false
unfolding viewer_loop
viewer_loop-ends later device_id token key others [] s e = absurd (ground arith)
viewer_loop-ends later device_id token key others ((now, event) ∷ events) s e =
    let r = viewer_event device_id token key others now event s in
    let ih = viewer_loop-ends later device_id token key others events r.state in
    go r.goes_on (viewer_loop device_id token key others events r.state) r.sent
      (release_screen_lease now device_id key r.state) ih
      (release_ends now later device_id key r.state) e
  where
    go :
        (goes_on : Bool) (rest : AppState × List Bytes × Bool) (sent : List Bytes) (t : AppState)
        → (rest.2 ≡ true → screen_lease_alive later device_id key rest.0 ≡ false)
        → screen_lease_alive later device_id key t ≡ false
        → (after_round goes_on rest sent t).2 ≡ true
        → screen_lease_alive later device_id key (after_round goes_on rest sent t).0 ≡ false
    go true rest sent t ih done e = ih e
    go false rest sent t ih done e = done

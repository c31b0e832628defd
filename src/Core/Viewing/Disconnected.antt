-- ===== src/Core/Viewing/Disconnected.antt =====
-- crates/rdesk_core/src/client.rs: a controller that has disconnected.
use rdesk.Prelude.{
  ℕ, ◌≡◌, inl, inr, refl, false, Option, none, some, List, [], ◌∷◌, arith, Bool-cases, ◌==◌, ==_iff,
}
use rdesk.Core.Input.{MouseEvent, KeyEvent, TouchEvent}
use rdesk.Core.Lifecycle.{Session, active, disconnected, get_state, stop, set_state, same_state}
use rdesk.Core.Lifecycle.Diagram.{Call, perform, perform-end}
use rdesk.Core.Sessions.{Sessions, session_at, change_session}
use rdesk.Core.Sessions.Laws.{at-change_other, at-change_lem}
use rdesk.Core.Viewing.{
  RemoteClient, not_active, is_active, send_mouse_event, send_key_event, send_touch_event,
  disconnect,
}

-- Calls on sessions, in any order, by whoever holds them.
unfoldable pub perform_at : List (ℕ × Call) → Sessions → Sessions
unfolding change_session perform
perform_at [] sessions = sessions
perform_at ((i, c) ∷ calls) sessions = perform_at calls (change_session i (perform c) sessions)

-- The reference leads to no session, or to one that has ended.
abbrev pub IsGone : Option Session → Type 0
IsGone none = Unit
IsGone (some s) = get_state s ≡ disconnected

IsGone-perform :
    (c : Call) (o : Option Session)
    → IsGone o
    → IsGone (elim o [ none ↦ none | some s ↦ some (perform c s) ])
IsGone-perform c none gone = tt
IsGone-perform c (some s) gone = rw (perform-end c s gone) gone

IsGone-change :
    (c : Call) (i j : ℕ) (sessions : Sessions)
    → IsGone (session_at j sessions)
    → IsGone (session_at j (change_session i (perform c) sessions))
IsGone-change c i j sessions gone = elim (Bool-cases (i == j)) [
  | inl e ↦
      let same = (==_iff i j).0 e in
      rw (same, at-change_lem j (perform c) sessions)
        (IsGone-perform c (session_at j sessions) gone)
  | inr e ↦ rw (at-change_other i j (perform c) sessions (λ same. ground (arith, ==_iff i j))) gone
]

IsGone-perform_at :
    (calls : List (ℕ × Call)) (j : ℕ) (sessions : Sessions)
    → IsGone (session_at j sessions)
    → IsGone (session_at j (perform_at calls sessions))
unfolding perform_at
IsGone-perform_at [] j sessions gone = gone
IsGone-perform_at ((i, c) ∷ calls) j sessions gone =
    IsGone-perform_at calls j (change_session i (perform c) sessions)
      (IsGone-change c i j sessions gone)

stop-IsGone : (o : Option Session) → IsGone (elim o [ none ↦ none | some s ↦ some (stop s) ])
unfolding stop set_state get_state same_state
stop-IsGone none = tt
stop-IsGone (some s) = grind arith

pub disconnect-IsGone :
    (client : RemoteClient) (sessions : Sessions)
    → IsGone (session_at client.session (disconnect client sessions))
unfolding disconnect
disconnect-IsGone client sessions =
    rw (at-change_lem client.session stop sessions)
      (stop-IsGone (session_at client.session sessions))

inactive :
    (client : RemoteClient) (sessions : Sessions)
    → IsGone (session_at client.session sessions)
    → is_active client sessions ≡ false
unfolding is_active same_state get_state
inactive client sessions gone = go (session_at client.session sessions) gone
  where
    go :
        (o : Option Session)
        → IsGone o
        → (elim o [
          | none ↦ same_state disconnected active
          | some s ↦ same_state (get_state s) active
        ])
          ≡ false
    go none gone = refl
    go (some s) gone = rw gone refl

-- Once a controller has disconnected, no mouse, key or touch event that is given to it is sent,
-- whatever calls are made in between on its session and on others.
pub disconnect_drops_events :
    (client : RemoteClient) (sessions : Sessions) (calls : List (ℕ × Call)) (mouse : MouseEvent)
    (key : KeyEvent) (touch : TouchEvent)
    → let later = perform_at calls (disconnect client sessions) in
      (send_mouse_event mouse client later ≡ not_active)
      × (send_key_event key client later ≡ not_active)
      × (send_touch_event touch client later ≡ not_active)
unfolding send_mouse_event send_key_event send_touch_event
disconnect_drops_events client sessions calls mouse key touch =
    let later = perform_at calls (disconnect client sessions) in
    let gone =
      IsGone-perform_at calls client.session (disconnect client sessions)
        (disconnect-IsGone client sessions) in
    let idle = inactive client later gone in (rw idle refl, rw idle refl, rw idle refl)

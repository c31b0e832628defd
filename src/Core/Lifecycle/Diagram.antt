-- ===== src/Core/Lifecycle/Diagram.antt =====
-- crates/rdesk_core/src/session.rs: the diagram of a session's states, and what its watchers see.
use rdesk.Prelude.{◌≤◌, ◌≡◌, refl, List, [], ◌∷◌, Text, arith, length, ap, ◌∙◌}
use rdesk.Core.Lifecycle.{
  SessionState, connecting, authenticating, active, disconnected, same_state, Session, new,
  set_state, start, activate, stop, drop, get_state,
}

infix 40 ◌⟶◌
pub data ◌⟶◌ : SessionState → SessionState → Type 0 where
  begin : connecting ⟶ authenticating
  admit : authenticating ⟶ active
  give_up : connecting ⟶ disconnected
  refuse : authenticating ⟶ disconnected
  end : active ⟶ disconnected

ruleset edges = (begin, admit, give_up, refuse, end)

-- What a watcher has seen, the newest state in front: a path of the diagram from its first state.
pub data IsHistory : SessionState → List SessionState → Type 0 where
  born : IsHistory connecting []
  moved :
      {s t : SessionState} {past : List SessionState}
      → s ⟶ t
      → IsHistory s past
      → IsHistory t (s ∷ past)

-- The calls that change the state of a session.
pub data Call : Type 0 where
  start_it activate_it stop_it drop_it : Call

unfoldable pub perform : Call → Session → Session
unfolding start activate stop drop
perform start_it s = (start s).0
perform activate_it s = (activate s).0
perform stop_it s = stop s
perform drop_it s = drop s

unfoldable pub perform_all : List Call → Session → Session
perform_all [] s = s
perform_all (c ∷ calls) s = perform_all calls (perform c s)

abbrev pub Lives : Session → Type 0
Lives s = IsHistory s.current s.earlier

pub perform-Lives : (c : Call) (s : Session) → Lives s → Lives (perform c s)
unfolding perform start activate stop drop set_state same_state get_state
perform-Lives start_it s h = grind (arith, edges, moved)
perform-Lives activate_it s h = grind (arith, edges, moved)
perform-Lives stop_it s h = grind (arith, edges, moved)
perform-Lives drop_it s h = grind (arith, edges, moved)

pub perform_all-Lives : (calls : List Call) (s : Session) → Lives s → Lives (perform_all calls s)
unfolding perform_all
perform_all-Lives [] s h = h
perform_all-Lives (c ∷ calls) s h = perform_all-Lives calls (perform c s) (perform-Lives c s h)

-- A path determines what was seen before, except for the end.
at_first : (past : List SessionState) → IsHistory connecting past → past ≡ []
at_first _ born = refl
at_first _ (moved e h) = elim e [ ]

at_second : (past : List SessionState) → IsHistory authenticating past → past ≡ connecting ∷ []
at_second _ (moved begin h) = ap (◌∷◌ connecting) (at_first _ h)

at_third :
    (past : List SessionState) → IsHistory active past → past ≡ authenticating ∷ connecting ∷ []
at_third _ (moved admit h) = ap (◌∷◌ authenticating) (at_second _ h)

length-IsHistory :
    (s : SessionState) (past : List SessionState) → IsHistory s past → length past ≤ 3
length-IsHistory _ _ born = omega arith
length-IsHistory _ _ (moved begin h) = omega (arith, ap length (at_first _ h))
length-IsHistory _ _ (moved admit h) = omega (arith, ap length (at_second _ h))
length-IsHistory _ _ (moved give_up h) = omega (arith, ap length (at_first _ h))
length-IsHistory _ _ (moved refuse h) = omega (arith, ap length (at_second _ h))
length-IsHistory _ _ (moved end h) = omega (arith, ap length (at_third _ h))

-- Whatever calls are made on a new session, in any order, what its watchers see is a path of the
-- diagram from `connecting`, with three changes at most.
pub perform_all-IsHistory :
    (id : Text) (calls : List Call)
    → IsHistory (get_state (perform_all calls (new id))) (perform_all calls (new id)).earlier
      × (length (perform_all calls (new id)).earlier ≤ 3)
unfolding get_state new
perform_all-IsHistory id calls =
    let h = perform_all-Lives calls (new id) born in (h, length-IsHistory _ _ h)

-- Whatever calls were made on a new session: if it is active, its watchers have seen `connecting`
-- and then `authenticating`, and nothing else before.
pub active_lem :
    (id : Text) (calls : List Call)
    → get_state (perform_all calls (new id)) ≡ active
    → (perform_all calls (new id)).earlier ≡ authenticating ∷ connecting ∷ []
active_lem id calls e = let h = (perform_all-IsHistory id calls).0 in at_third _ (rw e at h)

-- A session that has ended stays so.
pub perform-end : (c : Call) (s : Session) → get_state s ≡ disconnected → perform c s ≡ s
unfolding perform start activate stop drop set_state same_state get_state
perform-end start_it s e = grind arith
perform-end activate_it s e = grind arith
perform-end stop_it s e = grind arith
perform-end drop_it s e = grind arith

pub perform_all-end :
    (calls : List Call) (s : Session) → get_state s ≡ disconnected → perform_all calls s ≡ s
unfolding perform_all
perform_all-end [] s e = refl
perform_all-end (c ∷ calls) s e =
    ap (perform_all calls) (perform-end c s e) ∙ perform_all-end calls s e

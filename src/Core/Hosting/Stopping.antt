-- ===== src/Core/Hosting/Stopping.antt =====
-- crates/rdesk_core/src/server.rs: what accepting and stopping do to the sessions, whatever else
-- is called on them.
use rdesk.Prelude.{
  ℕ, ◌≡◌, inl, inr, refl, ap, Bool, false, List, [], ◌∷◌, arith, length, All, All-append,
  Bool-cases,
}
use rdesk.Common.Config.{AppConfig}
use rdesk.Core.Lifecycle.{Session, disconnected, get_state, stop, set_state, same_state}
use rdesk.Core.Lifecycle.Diagram.{Call, perform, perform-end}
use rdesk.Core.Sessions.{Sessions, change_session}
use rdesk.Core.Sessions.Laws.{at-change, at-added}
use rdesk.Core.Hosting.{Host, track, stop_each, stop_server, is_listening, active_session_count}
use rdesk.Core.Hosting.Steps.{
  Step, accept, call, halt, step, run, fresh, step_accepting, step_waiting, Holds-change, Holds-add,
  Holds-stop_each, Holds-step, Holds-run, All-implies, IsThere, IsOver,
}

over_keeps :
    (c : Call) (s : Session) → get_state s ≡ disconnected → get_state (perform c s) ≡ disconnected
over_keeps c s e = rw (perform-end c s e) e

abbrev Tracked : Host → Type 0
Tracked host = All (IsThere host.made) host.server.sessions

accept-Tracked : (drawn : ℕ) (host : Host) → Tracked host → Tracked (step (accept drawn) host)
unfolding track
accept-Tracked drawn host h = elim (Bool-cases (is_listening host)) [
  | inl e ↦ rw (step_accepting drawn host e) (
      All-append _ host.server.sessions _ (All-implies _ (λ j. Holds-add _ host.made _ j) h)
        ((_, at-added _ host.made, tt), tt))
  | inr e ↦ rw (step_waiting drawn host e) h
]

step-Tracked : (s : Step) (host : Host) → Tracked host → Tracked (step s host)
unfolding step stop_server
step-Tracked (accept drawn) host h = accept-Tracked drawn host h
step-Tracked (call i c) host h = All-implies _ (λ j. Holds-step _ (λ c s u. tt) (call i c) host j) h
step-Tracked halt host h = All-implies _ (λ j. Holds-step _ (λ c s u. tt) halt host j) h

run-Tracked : (steps : List Step) (host : Host) → Tracked host → Tracked (run steps host)
unfolding run
run-Tracked [] host h = h
run-Tracked (s ∷ steps) host h = run-Tracked steps (step s host) (step-Tracked s host h)

stop-over : (s : Session) → get_state (stop s) ≡ disconnected
unfolding stop get_state set_state same_state
stop-over s = grind arith

stop_each-IsOver :
    (sessions : List ℕ) (made : Sessions)
    → All (IsThere made) sessions
    → All (IsOver (stop_each sessions made)) sessions
unfolding stop_each
stop_each-IsOver [] made h = tt
stop_each-IsOver (i ∷ sessions) made ((s, at, u), h) =
    let made' = change_session i stop made in
    (
      Holds-stop_each _ over_keeps sessions made' i
          (stop s, at-change i stop s made at, stop-over s),
      stop_each-IsOver sessions made'
          (All-implies sessions (λ j. Holds-change (λ s. Unit) stop (λ s u. u) made i j) h),
    )

-- A server that was stopped keeps its list.
abbrev Halted : List ℕ → Host → Type 0
Halted sessions host = (is_listening host ≡ false) × (host.server.sessions ≡ sessions)

accept-Halted :
    (drawn : ℕ) (sessions : List ℕ) (host : Host)
    → Halted sessions host
    → Halted sessions (step (accept drawn) host)
accept-Halted drawn sessions host h = rw (step_waiting drawn host h.0) h

step-Halted :
    (s : Step) (sessions : List ℕ) (host : Host)
    → Halted sessions host
    → Halted sessions (step s host)
unfolding step stop_server is_listening
step-Halted (accept drawn) sessions host h = accept-Halted drawn sessions host h
step-Halted (call i c) sessions host h = h
step-Halted halt sessions host h = (refl, h.1)

run-Halted :
    (steps : List Step) (sessions : List ℕ) (host : Host)
    → Halted sessions host
    → Halted sessions (run steps host)
unfolding run
run-Halted [] sessions host h = h
run-Halted (s ∷ steps) sessions host h =
    run-Halted steps sessions (step s host) (step-Halted s sessions host h)

-- Whatever happened to a server before it is stopped, and whatever happens after: it does not
-- listen, each session that it has ever accepted is disconnected, and its count of active sessions
-- is still the number of all of them.
pub stop_server_lem :
    (config : AppConfig) (listening : Bool) (before after : List Step)
    → let host = run before (fresh config listening) in
      let done = run after (stop_server host) in
      (is_listening done ≡ false)
      × (active_session_count done ≡ active_session_count host)
      × All (IsOver done.made) host.server.sessions
unfolding stop_server active_session_count is_listening
stop_server_lem config listening before after =
    let host = run before (fresh config listening) in
    let (still, same) = run-Halted after host.server.sessions (stop_server host) (refl, refl) in
    (
      still,
      ap length same,
      All-implies host.server.sessions (λ j. Holds-run _ over_keeps after (stop_server host) j)
          (stop_each-IsOver host.server.sessions host.made
            (run-Tracked before (fresh config listening) tt)),
    )

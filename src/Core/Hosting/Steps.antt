-- ===== src/Core/Hosting/Steps.antt =====
-- crates/rdesk_core/src/server.rs: what may happen to a host, and what every step keeps.
use rdesk.Prelude.{
  ℕ, ◌+◌, ◌≡◌, inl, inr, refl, ap, ◌∙◌, Bool, true, false, some, List, [], ◌∷◌, arith, length,
  length-append, All, ◌==◌, ==_iff, Bool-cases, is_some,
}
use rdesk.Common.Config.{AppConfig}
use rdesk.Core.Lifecycle.{
  Session, connecting, authenticating, active, disconnected, get_state, start, activate, stop,
  set_state, same_state, new,
}
use rdesk.Core.Lifecycle.Diagram.{Call, stop_it, perform}
use rdesk.Core.Sessions.{Sessions, session_at, change_session, add_session}
use rdesk.Core.Sessions.Laws.{at-change, at-change_other, at-add, at-added}
use rdesk.Core.Hosting.{
  Host, accepted, equipped, track, started, activated, accept_connection, session_id_of, failed,
  not_listening, stop_each, stop_server, is_listening, active_session_count,
}

-- What may happen to a host: a connection is accepted, someone who holds a session calls it, the
-- server is stopped.
pub data Step : Type 0 where
  accept : ℕ → Step
  call : ℕ → Call → Step
  halt : Step

unfoldable pub step : Step → Host → Host
unfolding accept_connection stop_server change_session perform
step (accept drawn) host = (accept_connection drawn host).0
step (call i c) host = record host { made = change_session i (perform c) host.made }
step halt host = stop_server host

unfoldable pub run : List Step → Host → Host
unfolding step
run [] host = host
run (s ∷ steps) host = run steps (step s host)

-- A server that has accepted nothing.
abbrev pub fresh : AppConfig → Bool → Host
fresh config listening = record {
  server = record { config = config; listening = listening; sessions = [] };
  made = [];
}

-- What `accept_connection` makes of a session for that number.
abbrev pub ready : ℕ → Host → Session
ready drawn host = record (equipped (session_id_of host.server.config drawn)) {
  current = active;
  earlier = authenticating ∷ connecting ∷ [];
}

accepting :
    (drawn : ℕ) (host : Host)
    → is_listening host ≡ true
    → accept_connection drawn host ≡ track (ready drawn host) host
unfolding accept_connection started activated start activate set_state same_state get_state equipped
    new is_listening
accepting drawn host e = rw e refl

not_accepting :
    (drawn : ℕ) (host : Host)
    → is_listening host ≡ false
    → accept_connection drawn host ≡ (host, failed not_listening)
unfolding accept_connection is_listening
not_accepting drawn host e = rw e refl

pub step_accepting :
    (drawn : ℕ) (host : Host)
    → is_listening host ≡ true
    → step (accept drawn) host ≡ (track (ready drawn host) host).0
unfolding step
step_accepting drawn host e = ap (λ p. p.0) (accepting drawn host e)

pub step_waiting :
    (drawn : ℕ) (host : Host) → is_listening host ≡ false → step (accept drawn) host ≡ host
unfolding step
step_waiting drawn host e = ap (λ p. p.0) (not_accepting drawn host e)

-- An active session with what the host attaches to it.
abbrev IsEquipped : Session → Type 0
IsEquipped s =
    (get_state s ≡ active)
    × (is_some s.capturer ≡ true)
    × (is_some s.encoder ≡ true)
    × (is_some s.input ≡ true)

-- The session is there, in a state that the predicate allows.
abbrev pub Holds : (Session → Type 0) → Sessions → ℕ → Type 0
Holds P made i = (s : Session) × (session_at i made ≡ some s) × P s

abbrev pub IsThere : Sessions → ℕ → Type 0
IsThere = Holds (λ s. Unit)

abbrev pub IsOver : Sessions → ℕ → Type 0
IsOver = Holds (λ s. get_state s ≡ disconnected)

-- A call on one session keeps what each session has, if the call keeps it.
pub Holds-change :
    (P : Session → Type 0) (f : Session → Session)
    → ((s : Session) → P s → P (f s))
    → (made : Sessions) (i j : ℕ) → Holds P made j
    → Holds P (change_session i f made) j
Holds-change P f keeps made i j (s, at, p) = elim (Bool-cases (i == j)) [
  | inl e ↦ let same = (==_iff i j).0 e in (f s, rw same (at-change j f s made at), keeps s p)
  | inr e ↦ (s, at-change_other i j f made (λ same. ground (arith, ==_iff i j)) ∙ at, p)
]

pub Holds-add :
    (P : Session → Type 0) (made : Sessions) (new : Session) (j : ℕ)
    → Holds P made j
    → Holds P (add_session new made) j
Holds-add P made new j (s, at, p) = (s, at-add j s new made at, p)

-- What every call keeps, every step keeps.
module _ (P : Session → Type 0) (keeps : (c : Call) (s : Session) → P s → P (perform c s)) where
  pub Holds-stop_each :
      (sessions : List ℕ) (made : Sessions) (j : ℕ)
      → Holds P made j
      → Holds P (stop_each sessions made) j
  unfolding stop_each perform
  Holds-stop_each [] made j h = h
  Holds-stop_each (i ∷ sessions) made j h =
      Holds-stop_each sessions (change_session i stop made) j
        (Holds-change P stop (keeps stop_it) made i j h)

  Holds-accept :
      (drawn : ℕ) (host : Host) (j : ℕ)
      → Holds P host.made j
      → Holds P (step (accept drawn) host).made j
  unfolding track
  Holds-accept drawn host j h = elim (Bool-cases (is_listening host)) [
    | inl e ↦ rw (step_accepting drawn host e) (Holds-add P host.made _ j h)
    | inr e ↦ rw (step_waiting drawn host e) h
  ]

  pub Holds-step :
      (s : Step) (host : Host) (j : ℕ) → Holds P host.made j → Holds P (step s host).made j
  unfolding step stop_server
  Holds-step (accept drawn) host j h = Holds-accept drawn host j h
  Holds-step (call i c) host j h = Holds-change P (perform c) (keeps c) host.made i j h
  Holds-step halt host j h = Holds-stop_each host.server.sessions host.made j h

  pub Holds-run :
      (steps : List Step) (host : Host) (j : ℕ)
      → Holds P host.made j
      → Holds P (run steps host).made j
  unfolding run
  Holds-run [] host j h = h
  Holds-run (s ∷ steps) host j h = Holds-run steps (step s host) j (Holds-step s host j h)

pub All-implies : {P Q : ℕ → Type 0} (xs : List ℕ) → ((i : ℕ) → P i → Q i) → All P xs → All Q xs
All-implies [] f a = tt
All-implies (x ∷ xs) f a = (f x a.0, All-implies xs f a.1)

-- While the server listens, a connection is accepted: the session is new, active, has a capturer,
-- an encoder and an input simulator, and is one more in the count.
pub accept_connection_lem :
    (drawn : ℕ) (host : Host)
    → is_listening host ≡ true
    → let after = (accept_connection drawn host).0 in
      ((accept_connection drawn host).1 ≡ accepted (length host.made))
      × Holds IsEquipped after.made (length host.made)
      × (active_session_count after ≡ active_session_count host + 1)
unfolding track equipped active_session_count get_state
accept_connection_lem drawn host e = rw (accepting drawn host e) (
  refl,
  (ready drawn host, at-added _ host.made, (refl, refl, refl, refl)),
  length-append host.server.sessions _,
)

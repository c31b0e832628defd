-- ===== src/Core/Sessions/Laws.antt =====
-- What a reference to a session gives after each operation.
use rdesk.Prelude.{ℕ, zero, suc, ◌≡◌, ◌≢◌, refl, ap, none, some, [], ◌∷◌, arith, length}
use rdesk.Core.Lifecycle.{Session}
use rdesk.Core.Sessions.{Sessions, session_at, change_session, add_session}

pub at-change :
    (i : ℕ) (f : Session → Session) (s : Session) (sessions : Sessions)
    → session_at i sessions ≡ some s
    → session_at i (change_session i f sessions) ≡ some (f s)
unfolding session_at change_session
at-change i f s [] e = absurd (cc e)
at-change zero f s (t ∷ sessions) e = ground arith
at-change (suc i) f s (t ∷ sessions) e = at-change i f s sessions e

pub at-change_other :
    (i j : ℕ) (f : Session → Session) (sessions : Sessions)
    → i ≢ j
    → session_at j (change_session i f sessions) ≡ session_at j sessions
unfolding session_at change_session
at-change_other i j f [] n = refl
at-change_other zero zero f (s ∷ sessions) n = absurd (n refl)
at-change_other zero (suc j) f (s ∷ sessions) n = refl
at-change_other (suc i) zero f (s ∷ sessions) n = refl
at-change_other (suc i) (suc j) f (s ∷ sessions) n =
    at-change_other i j f sessions (λ e. n (ap suc e))

pub at-add :
    (i : ℕ) (s new : Session) (sessions : Sessions)
    → session_at i sessions ≡ some s
    → session_at i (add_session new sessions) ≡ some s
unfolding session_at add_session
at-add i s new [] e = absurd (cc e)
at-add zero s new (t ∷ sessions) e = e
at-add (suc i) s new (t ∷ sessions) e = at-add i s new sessions e

pub at-added :
    (new : Session) (sessions : Sessions)
    → session_at (length sessions) (add_session new sessions) ≡ some new
unfolding session_at add_session
at-added new [] = refl
at-added new (s ∷ sessions) = at-added new sessions

-- What a reference gives after a call, from what it gave before.
pub at-change_lem :
    (i : ℕ) (f : Session → Session) (sessions : Sessions)
    → session_at i (change_session i f sessions)
      ≡ elim (session_at i sessions) [ none ↦ none | some s ↦ some (f s) ]
unfolding session_at change_session
at-change_lem i f [] = refl
at-change_lem zero f (s ∷ sessions) = refl
at-change_lem (suc i) f (s ∷ sessions) = at-change_lem i f sessions

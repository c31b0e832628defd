-- ===== src/Wake/Polling.antt =====
-- crates/rdesk_server/src/wake/routes.rs: `poll`, which waits for a job.
--
-- A round of its loop has the time, the turn of the store, how long the call has taken, and what
-- other requests do while it sleeps. The loop runs on fuel.
pub mod Ends
use rdesk.Prelude.{ℕ, zero, suc, Text, Option, none, some, leb, if◌then◌else◌}
use rdesk.Server.State.{AppState}
use rdesk.Wake.Model.{WakeResult, WakeError, ok, err}
use rdesk.Wake.Requests.{Job}
use rdesk.Wake.Routes.{Call, begin_poll, poll_round}

pub record PollRound : Type 0 where
  pub call : Call
  pub elapsed : ℕ
  pub asleep : AppState → AppState

pub data Polled : Type 0 where
  job : Job → Polled
  no_content : Polled
  refused : WakeError → Polled
  unfinished : Polled

abbrev poll_deadline : ℕ
poll_deadline = 5000

-- How a round ends the loop, or lets it go on.
abbrev pub answer : WakeResult (Option Job) → ℕ → AppState → AppState × Polled → AppState × Polled
answer (err e) elapsed s rest = (s, refused e)
answer (ok (some j)) elapsed s rest = (s, job j)
answer (ok none) elapsed s rest = if leb poll_deadline elapsed then (s, no_content) else rest

module _ (digest : Text → Text) where
  -- From the round `i` on.
  unfoldable pub poll_loop : (ℕ → PollRound) → Text → Text → ℕ → ℕ → AppState → AppState × Polled
  unfolding poll_round
  poll_loop rounds id owner i zero s = (s, unfinished)
  poll_loop rounds id owner i (suc n) s =
      let (s', r) = poll_round digest (rounds i).call id owner s in
      let rest = poll_loop rounds id owner (suc i) n ((rounds i).asleep s') in
      answer r (rounds i).elapsed s' rest

  abbrev pub started : (ℕ → PollRound) → Text → ℕ → AppState × WakeResult Text → AppState × Polled
  started rounds id fuel (s, err e) = (s, refused e)
  started rounds id fuel (s, ok owner) = poll_loop rounds id owner 0 fuel s

  unfoldable pub poll : ℕ → (ℕ → PollRound) → Call → Text → AppState → AppState × Polled
  unfolding begin_poll poll_loop
  poll fuel rounds c id s = started rounds id fuel (begin_poll digest c id s)

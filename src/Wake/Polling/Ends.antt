-- ===== src/Wake/Polling/Ends.antt =====
-- crates/rdesk_server/src/wake/routes.rs: the end of `poll`.
use rdesk.Prelude.{
  ℕ, zero, suc, ◌+◌, ◌*◌, ◌≤◌, ◌<◌, ◌≡◌, ◌≢◌, Option, none, some, arith, leb, Text, Bool-cases, inl,
  inr,
}
use rdesk.Server.State.{AppState}
use rdesk.Wake.Model.{WakeResult, ok, err}
use rdesk.Wake.Requests.{Job}
use rdesk.Wake.Routes.{Call, begin_poll, poll_round}
use rdesk.Wake.Polling.{PollRound, Polled, answer, started, unfinished, poll_loop, poll}

answer-ends :
    (r : WakeResult (Option Job)) (elapsed : ℕ) (s : AppState) (rest : AppState × Polled)
    → (elapsed < 5000 → rest.1 ≢ unfinished)
    → (answer r elapsed s rest).1 ≢ unfinished
answer-ends (err e) elapsed s rest h = λ same. cc same
answer-ends (ok (some j)) elapsed s rest h = λ same. cc same
answer-ends (ok none) elapsed s rest h = elim (Bool-cases (leb 5000 elapsed)) [
  | inl late ↦ rw late (λ same. cc same)
  | inr early ↦ rw early (h (ground arith))
]

module _ (digest : Text → Text) (rounds : ℕ → PollRound) (id : Text) where
  poll_loop-ends :
      (owner : Text) (i n : ℕ) (s : AppState)
      → ((j : ℕ) → j * 100 ≤ (rounds j).elapsed)
      → i ≤ 50
      → i + n ≡ 51
      → (poll_loop digest rounds id owner i n s).1 ≢ unfinished
  unfolding poll_loop
  poll_loop-ends owner i zero s slow low total = absurd (omega arith)
  poll_loop-ends owner i (suc n) s slow low total =
      answer-ends (poll_round digest (rounds i).call id owner s).1 (rounds i).elapsed _ _
        (λ e. poll_loop-ends owner (suc i) n _ slow (omega (arith, slow i, e)) (omega arith))

  -- Where its rounds take a hundred milliseconds at least, the poll ends within 51 of them: with a
  -- job, without one, or with a refusal.
  pub poll-ends :
      (c : Call) (s : AppState)
      → ((j : ℕ) → j * 100 ≤ (rounds j).elapsed)
      → (poll digest 51 rounds c id s).1 ≢ unfinished
  unfolding poll
  poll-ends c s slow = begun (begin_poll digest c id s)
    where
      begun : (p : AppState × WakeResult Text) → (started digest rounds id 51 p).1 ≢ unfinished
      begun (s', err e) = λ same. cc same
      begun (s', ok owner) = poll_loop-ends owner 0 51 s' slow (omega arith) (omega arith)

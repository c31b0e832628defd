-- ===== src/Server/Commands/Delivery.antt =====
-- crates/rdesk_server/src/main.rs: what a host's poll gives it and when, and an answer that is late.
use rdesk.Prelude.{
  ℕ, zero, suc, ◌+◌, ◌*◌, ◌≤◌, ◌≡◌, ◌≢◌, Text, text_eq_refl, true, none, some, List, [], ◌∷◌, arith,
  Option-cases, Bool-cases, inl, inr,
}
use rdesk.Map
use rdesk.Map.Laws.{get-insert, get-remove}
use rdesk.Server.State.{
  AppState, PendingCommand, CommandResult, success, bare, is_fresh, command_ttl_ms,
}
use rdesk.Server.Commands.{
  answer, refused, drop_stale, put_queue, expire_stale_device_commands, pop_front, poll_round,
  poll_loop, pending, end_command, poll_tick_ms, poll_host_command, long_poll_ms,
}

-- An answer that comes after the request has given up changes nothing.
pub answer_late :
    (command_id : Text) (r : CommandResult) (s : AppState)
    → Map.get command_id s.replies ≡ none
    → Map.get command_id s.command_waiters ≡ some tt
    → ((end_command command_id s).1 ≡ bare 504)
      × (answer command_id r (end_command command_id s).0 ≡ (end_command command_id s).0)
unfolding end_command answer
answer_late command_id r s missing waits = (
  ground arith,
  ground (arith, text_eq_refl command_id, get-remove command_id command_id s.command_waiters),
)

-- What is in front of a queue after the stale commands have gone is fresh.
abbrev pub HeadIsFresh : ℕ → List PendingCommand → Type 0
HeadIsFresh now [] = Unit
HeadIsFresh now (c ∷ queue) = is_fresh now c.queued_at_ms command_ttl_ms ≡ true

drop_stale-head :
    (now : ℕ) (queue : List PendingCommand) (s : AppState)
    → HeadIsFresh now (drop_stale now queue s).0
unfolding drop_stale
drop_stale-head now [] s = tt
drop_stale-head now (c ∷ queue) s = elim (Bool-cases (is_fresh now c.queued_at_ms command_ttl_ms)) [
  | inl fresh ↦ rw (fresh, drop_stale) fresh
  | inr stale ↦ rw (stale, drop_stale) (drop_stale-head now queue (answer c.command_id refused s))
]

popped_is_fresh :
    (now : ℕ) (device_id : Text) (rest : List PendingCommand) (t : AppState) (c : PendingCommand)
    → HeadIsFresh now rest
    → (pop_front device_id (put_queue device_id rest t)).1 ≡ some c
    → now ≤ c.queued_at_ms + command_ttl_ms
unfolding pop_front put_queue
popped_is_fresh now device_id [] t c fresh e =
    absurd
      (ground (arith, text_eq_refl device_id, get-insert device_id device_id [] t.command_queues))
popped_is_fresh now device_id (x ∷ rest) t c fresh e =
    ground
      (arith, text_eq_refl device_id, get-insert device_id device_id (x ∷ rest) t.command_queues)

-- A host is never given a command that has waited longer than fifteen seconds.
pub poll_round-fresh :
    (now : ℕ) (device_id : Text) (s : AppState) (c : PendingCommand)
    → (poll_round now device_id s).1 ≡ some c
    → now ≤ c.queued_at_ms + command_ttl_ms
unfolding poll_round expire_stale_device_commands
poll_round-fresh now device_id s c e = elim (Option-cases (Map.get device_id s.command_queues)) [
  | inl missing ↦ absurd (unfold pop_front in ground arith)
  | inr (queue, found) ↦
      let left = drop_stale now queue s in
      popped_is_fresh now device_id left.0 left.1 c (drop_stale-head now queue s)
        (rw (found, poll_round, expire_stale_device_commands) at e)
]

-- The clock of a poll advances by the time that it sleeps.
abbrev pub Ticks : (ℕ → ℕ) → Type 0
Ticks clock = (n : ℕ) → clock n + poll_tick_ms ≤ clock (suc n)

poll_loop-ends :
    (clock : ℕ → ℕ) (others : ℕ → AppState → AppState) (deadline : ℕ) (device_id : Text)
    (fuel n : ℕ) (s : AppState)
    → Ticks clock
    → deadline ≤ clock n + fuel * poll_tick_ms
    → (poll_loop clock others deadline device_id (suc fuel) n s).1 ≢ pending
unfolding poll_loop
poll_loop-ends clock others deadline device_id zero n s ticks enough = ground arith
poll_loop-ends clock others deadline device_id (suc fuel) n s ticks enough =
    let round = poll_round (clock n) device_id s in
    let later =
      poll_loop-ends clock others deadline device_id fuel (suc n) (others n round.0) ticks
        (omega (arith, ticks n)) in
    ground (arith, later)

-- The long poll answers: 335 rounds of at least 15 milliseconds reach its deadline of five seconds,
-- whatever other requests do in between.
pub poll_host_command-ends :
    (clock : ℕ → ℕ) (others : ℕ → AppState → AppState) (device_id host_token : Text) (s : AppState)
    → Ticks clock
    → (poll_host_command clock others 335 device_id host_token s).1 ≢ success pending
unfolding poll_host_command
poll_host_command-ends clock others device_id host_token s ticks =
    let ends =
      poll_loop-ends clock others (clock 0 + long_poll_ms) device_id 334 0 s ticks (omega arith) in
    ground (arith, ends)

-- ===== src/Wake/Validity/Phases/Runs.antt =====
-- The phases of an account's requests under every operation.
use rdesk.Prelude.{
  ℕ, ◌≡◌, refl, Text, text_eq, text_eq_refl, Bool, true, false, ◌&&◌, ◌||◌, not, Option, List, [],
  ◌∷◌, ◌++◌, arith, All, All-map, All-keep, All-append, find, Option-cases, inl, inr, keep,
}
use rdesk.Wake.Model.{
  WakeResult, WakePhase, active, ok, err, WakeAccountData, WakeRequest, queued, prune,
  recover_after_restart, interrupt, advance, cancel_if, is_recent, for_target, for_agent,
  cancel_target,
}
use rdesk.Wake.Model.Life.{same_phase}
use rdesk.Wake.Model.Order.{All-take, All-sort_newest}
use rdesk.Wake.Devices
use rdesk.Wake.Devices.{Mutation, is_target, cancel_agent, TargetFields}
use rdesk.Wake.Requests
use rdesk.Wake.Requests.{active_for, queue_request, new_request, advance_all}
use rdesk.Wake.Validity.Runs.{
  Operation, creates_agent, enables_agent, creates_target, enrols_target, updates_target,
  completes_target, rotates_target, deletes_target, revokes_agent, stops_agent, advances,
  creates_request, takes_job, authorizes, records_result, restarts, commit, perform,
}
use rdesk.Wake.Validity.Phases.{
  came_from, IsTraced, Traces, goes_to, rank, none_made, unchanged-traced, mapped-traced, All-old,
  self-IsTraced, cancel-IsNext, advance-IsNext, interrupt-IsNext, take_job-Traces, authorize-Traces,
  record_result-Traces,
}

-- The request that an operation makes: it is queued, under the operation's id.
unfoldable pub makes : Operation → WakeRequest → Bool
unfolding same_phase
makes (creates_request now target_seen agent_seen id target_id) q =
    text_eq q.id id && same_phase q.phase queued
makes _ q = false

unfoldable new_made : Text → WakeRequest → Bool
new_made id q = text_eq q.id id && same_phase q.phase queued

module _ (Q : WakeRequest → Type 0) where
  prune-All : (now : ℕ) (d : WakeAccountData) → All Q d.requests → All Q (prune now d).requests
  unfolding prune
  prune-All now d h = All-take Q 50 _ (
      All-sort_newest Q (keep (is_recent now) d.requests) (All-keep Q (is_recent now) d.requests h))

interrupt_goes :
    (p : WakePhase) (q : WakeRequest)
    → goes_to p q.phase ≡ true
    → goes_to p (interrupt q).phase ≡ true
unfolding goes_to same_phase rank interrupt active
interrupt_goes p q h = ground arith

interrupt-IsTraced :
    (rs : List WakeRequest) (q : WakeRequest) → IsTraced rs q → IsTraced rs (interrupt q)
interrupt-IsTraced [] q h = h
interrupt-IsTraced (r ∷ rs) q h =
    ground (arith, interrupt_goes r.phase q, interrupt-IsNext q, interrupt-IsTraced rs q)

restart-IsTraced :
    (now : ℕ) (d : WakeAccountData)
    → All (IsTraced d.requests) (recover_after_restart now d).requests
unfolding recover_after_restart
restart-IsTraced now d =
    All-map (IsTraced d.requests) interrupt (prune now d).requests (interrupt-IsTraced d.requests)
      (prune-All (IsTraced d.requests) now d (self-IsTraced d.requests))

commit-traced :
    {A : Type 0} (at : ℕ) (made : WakeRequest → Bool) (m : Mutation A) (d : WakeAccountData)
    → Traces made m
    → All (λ q. (came_from d.requests q || made q) ≡ true) (commit at m d).requests
unfolding commit
commit-traced {A} at made m d t = go (m d) (λ d' a e. t d d' a e)
  where
    Good : WakeAccountData → Type 0
    Good d' = All (λ q. (came_from d.requests q || made q) ≡ true) d'.requests

    go :
        (r : WakeResult (WakeAccountData × A))
        → ((d' : WakeAccountData) (a : A) → r ≡ ok (d', a) → Good d')
        → Good (elim r [ ok (d', a) ↦ prune at d' | err e ↦ d ])
    go (err e) g = All-old made d.requests d.requests (self-IsTraced d.requests)
    go (ok (d', a)) g =
        prune-All (λ q. (came_from d.requests q || made q) ≡ true) at d' (g d' a refl)

-- The closures on devices leave the requests alone, or cancel some, or drop some.
create_agent-Traces : (id name hash : Text) → Traces none_made (Devices.create_agent id name hash)
unfolding Devices.create_agent
create_agent-Traces id name hash d d' a e = unchanged-traced none_made d d' (ground arith)

enable_agent-Traces : (id name hash : Text) → Traces none_made (Devices.enable_agent id name hash)
unfolding Devices.enable_agent cancel_agent
enable_agent-Traces id name hash d d' a e =
    mapped-traced none_made d d' (cancel_if (for_agent id)) (cancel-IsNext (for_agent id))
      (ground arith)

create_target-Traces :
    (now : ℕ) (id hash : Text) (b : TargetFields)
    → Traces none_made (Devices.create_target now id hash b)
unfolding Devices.create_target
create_target-Traces now id hash b d d' a e = unchanged-traced none_made d d' (ground arith)

enroll_target-Traces :
    (now : ℕ) (id hash : Text) (b : TargetFields)
    → Traces none_made (Devices.enroll_target now id hash b)
unfolding Devices.enroll_target
enroll_target-Traces now id hash b d d' a e = unchanged-traced none_made d d' (ground arith)

update_target-Traces :
    (id : Text) (b : TargetFields) → Traces none_made (Devices.update_target id b)
unfolding Devices.update_target cancel_target
update_target-Traces id b d d' a e =
    mapped-traced none_made d d' (cancel_if (for_target id)) (cancel-IsNext (for_target id))
      (ground arith)

complete_target-Traces :
    (id agent_id : Text) → Traces none_made (Devices.complete_target id agent_id)
unfolding Devices.complete_target cancel_target
complete_target-Traces id agent_id d d' a e =
    mapped-traced none_made d d' (cancel_if (for_target id)) (cancel-IsNext (for_target id))
      (ground arith)

rotate_target-Traces : (id hash : Text) → Traces none_made (Devices.rotate_target id hash)
unfolding Devices.rotate_target
rotate_target-Traces id hash d d' a e = unchanged-traced none_made d d' (ground arith)

delete_target-Traces : (id : Text) → Traces none_made (Devices.delete_target id)
unfolding Devices.delete_target
delete_target-Traces id d d' a e = rw dropped (
    All-old none_made d.requests _ (
      All-keep (IsTraced d.requests) (λ r. not (for_target id r)) d.requests
        (self-IsTraced d.requests)))
  where
    dropped : d'.requests ≡ keep (λ r. not (for_target id r)) d.requests
    dropped = ground arith

revoke-Traces : (id : Text) → Traces none_made (Devices.revoke id)
unfolding Devices.revoke cancel_agent
revoke-Traces id d d' a e =
    mapped-traced none_made d d' (cancel_if (for_agent id)) (cancel-IsNext (for_agent id))
      (ground arith)

stop_helper-Traces :
    (id : Text) (expected : Option Text) → Traces none_made (Devices.stop_helper id expected)
unfolding Devices.stop_helper cancel_agent
stop_helper-Traces id expected d d' a e =
    mapped-traced none_made d d' (cancel_if (for_agent id)) (cancel-IsNext (for_agent id))
      (ground arith)

advance_all-Traces : (now : ℕ) (seen : Text → Option ℕ) → Traces none_made (advance_all now seen)
unfolding advance_all
advance_all-Traces now seen d d' a e =
    mapped-traced none_made d d' (λ r. advance now (seen r.target_id) r)
      (λ r. advance-IsNext now (seen r.target_id) r) (ground arith)

create_request-Traces :
    (now : ℕ) (target_seen agent_seen : Text → Option ℕ) (id target_id : Text)
    → Traces (new_made id) (Requests.create_request now target_seen agent_seen id target_id)
unfolding Requests.create_request queue_request
create_request-Traces now target_seen agent_seen id target_id d d' a e =
    elim (Option-cases (find (is_target target_id) d.targets)) [
      | inl missing ↦ absurd (ground arith)
      | inr (t, found) ↦ elim (Option-cases (find (active_for t.id) d.requests)) [
        | inr (r, busy) ↦ unchanged-traced (new_made id) d d' (ground arith)
        | inl free ↦
            let added : d'.requests ≡ d.requests ++ new_request now id t ∷ [] = ground arith in
            rw added (
              All-append (λ q. (came_from d.requests q || new_made id q) ≡ true) d.requests _
                (All-old (new_made id) d.requests d.requests (self-IsTraced d.requests))
                (unfold new_request new_made same_phase in ground (arith, text_eq_refl id), tt))
      ]
    ]

-- No operation, and no restart, takes a request back: each request behind it was there before, and
-- has stayed in its phase or gone on from it, where one that has ended does not go on; or it is the
-- request that the operation makes, and is queued.
pub perform_forward :
    (at : ℕ) (o : Operation) (d : WakeAccountData)
    → All (λ q. (came_from d.requests q || makes o q) ≡ true) (perform at o d).requests
unfolding perform makes none_made new_made
perform_forward at (creates_agent id name hash) d =
    commit-traced at none_made _ d (create_agent-Traces id name hash)
perform_forward at (enables_agent id name hash) d =
    commit-traced at none_made _ d (enable_agent-Traces id name hash)
perform_forward at (creates_target now id hash b) d =
    commit-traced at none_made _ d (create_target-Traces now id hash b)
perform_forward at (enrols_target now id hash b) d =
    commit-traced at none_made _ d (enroll_target-Traces now id hash b)
perform_forward at (updates_target id b) d =
    commit-traced at none_made _ d (update_target-Traces id b)
perform_forward at (completes_target id agent_id) d =
    commit-traced at none_made _ d (complete_target-Traces id agent_id)
perform_forward at (rotates_target id hash) d =
    commit-traced at none_made _ d (rotate_target-Traces id hash)
perform_forward at (deletes_target id) d = commit-traced at none_made _ d (delete_target-Traces id)
perform_forward at (revokes_agent id) d = commit-traced at none_made _ d (revoke-Traces id)
perform_forward at (stops_agent id expected) d =
    commit-traced at none_made _ d (stop_helper-Traces id expected)
perform_forward at (advances now seen) d =
    commit-traced at none_made _ d (advance_all-Traces now seen)
perform_forward at (creates_request now target_seen agent_seen id target_id) d =
    commit-traced at (new_made id) _ d
      (create_request-Traces now target_seen agent_seen id target_id)
perform_forward at (takes_job now agent_id) d =
    commit-traced at none_made _ d (take_job-Traces now agent_id)
perform_forward at (authorizes now id agent_id) d =
    commit-traced at none_made _ d (authorize-Traces now id agent_id)
perform_forward at (records_result now seen id agent_id reported error) d =
    commit-traced at none_made _ d (record_result-Traces now seen id agent_id reported error)
perform_forward at (restarts now) d =
    All-old none_made d.requests (recover_after_restart now d).requests (restart-IsTraced now d)

-- ===== src/Wake/Validity/Runs.antt =====
-- The data of one account over any sequence of operations on them, with restarts of the server
-- in between.
use rdesk.Prelude.{ℕ, ◌≤◌, ◌≡◌, refl, Text, Bool, Option, List, [], ◌∷◌, length, count, All}
use rdesk.Wake.Model.{
  WakeResult, ok, err, WakeAccountData, no_wake_data, prune, recover_after_restart,
}
use rdesk.Wake.Model.Life.{IsSound}
use rdesk.Wake.Devices
use rdesk.Wake.Devices.{Mutation, TargetFields}
use rdesk.Wake.Requests
use rdesk.Wake.Requests.{advance_all, active_for}
use rdesk.Wake.Validity.{IsValid, Keeps, no_wake_data-IsValid}
use rdesk.Wake.Validity.Devices.{
  create_agent-Keeps, create_target-Keeps, enroll_target-Keeps, update_target-Keeps,
  complete_target-Keeps, rotate_target-Keeps, delete_target-Keeps, revoke-Keeps, stop_helper-Keeps,
  enable_agent-Keeps,
}
use rdesk.Wake.Validity.Requests.{
  advance_all-Keeps, take_job-Keeps, authorize-Keeps, record_result-Keeps, create_request-Keeps,
}
use rdesk.Wake.Validity.Pruning.{prune-IsValid, recover-IsValid}

-- The operations that `update_wake` runs, and a restart. `seen` says when a device was last seen.
pub data Operation : Type 0 where
  creates_agent enables_agent : Text → Text → Text → Operation
  creates_target enrols_target : ℕ → Text → Text → TargetFields → Operation
  updates_target : Text → TargetFields → Operation
  completes_target rotates_target : Text → Text → Operation
  deletes_target revokes_agent : Text → Operation
  stops_agent : Text → Option Text → Operation
  advances : ℕ → (Text → Option ℕ) → Operation
  creates_request : ℕ → (Text → Option ℕ) → (Text → Option ℕ) → Text → Text → Operation
  takes_job : ℕ → Text → Operation
  authorizes : ℕ → Text → Text → Operation
  records_result : ℕ → (Text → Option ℕ) → Text → Text → Bool → Option Text → Operation
  restarts : ℕ → Operation

-- The data that are kept: those of a closure that succeeds, pruned, or else the old ones.
unfoldable pub commit : {A : Type 0} → ℕ → Mutation A → WakeAccountData → WakeAccountData
commit now m d = elim (m d) [ ok (d', a) ↦ prune now d' | err e ↦ d ]

unfoldable pub perform : ℕ → Operation → WakeAccountData → WakeAccountData
unfolding commit
perform at (creates_agent id name hash) d = commit at (Devices.create_agent id name hash) d
perform at (enables_agent id name hash) d = commit at (Devices.enable_agent id name hash) d
perform at (creates_target now id hash b) d = commit at (Devices.create_target now id hash b) d
perform at (enrols_target now id hash b) d = commit at (Devices.enroll_target now id hash b) d
perform at (updates_target id b) d = commit at (Devices.update_target id b) d
perform at (completes_target id agent_id) d = commit at (Devices.complete_target id agent_id) d
perform at (rotates_target id hash) d = commit at (Devices.rotate_target id hash) d
perform at (deletes_target id) d = commit at (Devices.delete_target id) d
perform at (revokes_agent id) d = commit at (Devices.revoke id) d
perform at (stops_agent id expected) d = commit at (Devices.stop_helper id expected) d
perform at (advances now seen) d = commit at (advance_all now seen) d
perform at (creates_request now target_seen agent_seen id target_id) d =
    commit at (Requests.create_request now target_seen agent_seen id target_id) d
perform at (takes_job now agent_id) d = commit at (Requests.take_job now agent_id) d
perform at (authorizes now id agent_id) d = commit at (Requests.authorize now id agent_id) d
perform at (records_result now seen id agent_id reported error) d =
    commit at (Requests.record_result now seen id agent_id reported error) d
perform at (restarts now) d = recover_after_restart now d

-- The operations, each with the time at which its data are pruned.
unfoldable pub perform_all : List (ℕ × Operation) → WakeAccountData → WakeAccountData
unfolding perform
perform_all [] d = d
perform_all ((at, o) ∷ os) d = perform_all os (perform at o d)

commit-IsValid :
    {A : Type 0} (now : ℕ) (m : Mutation A) (d : WakeAccountData)
    → Keeps m
    → IsValid d
    → IsValid (commit now m d)
unfolding commit
commit-IsValid {A} now m d keeps v = go (m d) (λ d' a e. keeps d d' a e v)
  where
    go :
        (r : WakeResult (WakeAccountData × A))
        → ((d' : WakeAccountData) (a : A) → r ≡ ok (d', a) → IsValid d')
        → IsValid (elim r [ ok (d', a) ↦ prune now d' | err e ↦ d ])
    go (err e) g = v
    go (ok (d', a)) g = prune-IsValid now d' (g d' a refl)

perform-IsValid :
    (at : ℕ) (o : Operation) (d : WakeAccountData) → IsValid d → IsValid (perform at o d)
unfolding perform
perform-IsValid at (creates_agent id name hash) d =
    commit-IsValid at _ d (create_agent-Keeps id name hash)
perform-IsValid at (enables_agent id name hash) d =
    commit-IsValid at _ d (enable_agent-Keeps id name hash)
perform-IsValid at (creates_target now id hash b) d =
    commit-IsValid at _ d (create_target-Keeps now id hash b)
perform-IsValid at (enrols_target now id hash b) d =
    commit-IsValid at _ d (enroll_target-Keeps now id hash b)
perform-IsValid at (updates_target id b) d = commit-IsValid at _ d (update_target-Keeps id b)
perform-IsValid at (completes_target id agent_id) d =
    commit-IsValid at _ d (complete_target-Keeps id agent_id)
perform-IsValid at (rotates_target id hash) d = commit-IsValid at _ d (rotate_target-Keeps id hash)
perform-IsValid at (deletes_target id) d = commit-IsValid at _ d (delete_target-Keeps id)
perform-IsValid at (revokes_agent id) d = commit-IsValid at _ d (revoke-Keeps id)
perform-IsValid at (stops_agent id expected) d =
    commit-IsValid at _ d (stop_helper-Keeps id expected)
perform-IsValid at (advances now seen) d = commit-IsValid at _ d (advance_all-Keeps now seen)
perform-IsValid at (creates_request now target_seen agent_seen id target_id) d =
    commit-IsValid at _ d (create_request-Keeps now target_seen agent_seen id target_id)
perform-IsValid at (takes_job now agent_id) d = commit-IsValid at _ d (take_job-Keeps now agent_id)
perform-IsValid at (authorizes now id agent_id) d =
    commit-IsValid at _ d (authorize-Keeps now id agent_id)
perform-IsValid at (records_result now seen id agent_id reported error) d =
    commit-IsValid at _ d (record_result-Keeps now seen id agent_id reported error)
perform-IsValid at (restarts now) d = recover-IsValid now d

run-IsValid :
    (os : List (ℕ × Operation)) (d : WakeAccountData) → IsValid d → IsValid (perform_all os d)
unfolding perform_all
run-IsValid [] d v = v
run-IsValid ((at, o) ∷ os) d v = run-IsValid os (perform at o d) (perform-IsValid at o d v)

-- Whatever is done to a new account's data, in any order and at any times, with restarts in
-- between: there are at most 5 agents and 20 targets, no target ever has two active requests, and
-- the times that a request carries fit its phase.
pub account_stays_valid :
    (os : List (ℕ × Operation)) (target_id : Text)
    → let d = perform_all os no_wake_data in
      (length d.agents ≤ 5)
      × (length d.targets ≤ 20)
      × (count (active_for target_id) d.requests ≤ 1)
      × All IsSound d.requests
account_stays_valid os target_id =
    let v = run-IsValid os no_wake_data no_wake_data-IsValid in
    (v.few_agents, v.few_targets, v.single target_id, v.sound)

-- ===== src/Wake/Validity/Phases.antt =====
-- crates/rdesk_server/src/wake/model.rs and routes.rs: the phases of a request under the operations
-- on requests.
pub mod Runs
use rdesk.Prelude.{
  ℕ, ◌≡◌, refl, Text, text_eq, text_eq_refl, Bool, true, false, ◌&&◌, ◌||◌, not, Option, some, none,
  List, [], ◌∷◌, ◌++◌, arith, any, All, ltb, All-keep, All-append, keep, map, find, find_passes,
  update_first, Option-cases, Bool-cases, inl, inr,
}
use rdesk.Wake.Model.{
  WakePhase, claimed, sent, is_sent, WakeResult, ok, err, WakeAccountData, WakeRequest, queued,
  prune, recover_after_restart, advance, interrupt, cancel_if, sort_newest, is_recent, for_target,
  for_agent, active, waiting,
}
use rdesk.Wake.Model.Life.{
  Follows, same_phase, step_to, same_phase_refl, advance-Follows, interrupt-Follows,
}
use rdesk.Wake.Model.Order.{All-take, All-sort_newest}
use rdesk.Wake.Devices
use rdesk.Wake.Devices.{Mutation, is_target, cancel_agent}
use rdesk.Wake.Requests
use rdesk.Wake.Requests.{
  claimable, claim_request, is_request, is_claimed, apply_result, has_result, active_for,
  queue_request, new_request, advance_all,
}
use rdesk.Wake.Validity.Runs.{
  Operation, creates_agent, enables_agent, creates_target, enrols_target, updates_target,
  completes_target, rotates_target, deletes_target, revokes_agent, stops_agent, advances,
  creates_request, takes_job, authorizes, records_result, restarts, commit, perform,
}

-- How far a request has come: what has ended goes no further.
unfoldable pub rank : WakePhase → ℕ
rank queued = 0
rank claimed = 1
rank sent = 2
rank _ = 3

unfoldable pub goes_to : WakePhase → WakePhase → Bool
unfolding same_phase rank
goes_to p q = same_phase p q || ltb (rank p) (rank q)

-- A request that was there before, with a phase that its present one follows.
abbrev pub came_from : List WakeRequest → WakeRequest → Bool
came_from rs q = any (λ r. text_eq r.id q.id && goes_to r.phase q.phase) rs

abbrev pub IsTraced : List WakeRequest → WakeRequest → Type 0
IsTraced rs q = came_from rs q ≡ true

-- What one request may become.
abbrev pub IsNext : WakeRequest → WakeRequest → Type 0
IsNext r q = (q.id ≡ r.id) × (goes_to r.phase q.phase ≡ true)

IsNext-refl : (r : WakeRequest) → IsNext r r
unfolding goes_to
IsNext-refl r = (refl, ground (arith, same_phase_refl r.phase))

All-weaker :
    (r : WakeRequest) (rs qs : List WakeRequest) → All (IsTraced rs) qs → All (IsTraced (r ∷ rs)) qs
All-weaker r rs [] h = tt
All-weaker r rs (q ∷ qs) h = (ground (arith, h.0), All-weaker r rs qs h.1)

IsNext-IsTraced : (r q : WakeRequest) (rs : List WakeRequest) → IsNext r q → IsTraced (r ∷ rs) q
IsNext-IsTraced r q rs n = ground (arith, n.0, n.1, text_eq_refl r.id)

pub map-IsTraced :
    (f : WakeRequest → WakeRequest) (rs : List WakeRequest)
    → ((r : WakeRequest) → IsNext r (f r))
    → All (IsTraced rs) (map f rs)
map-IsTraced f [] h = tt
map-IsTraced f (r ∷ rs) h =
    (IsNext-IsTraced r (f r) rs (h r), All-weaker r rs (map f rs) (map-IsTraced f rs h))

pub self-IsTraced : (rs : List WakeRequest) → All (IsTraced rs) rs
self-IsTraced [] = tt
self-IsTraced (r ∷ rs) =
    (IsNext-IsTraced r r rs (IsNext-refl r), All-weaker r rs rs (self-IsTraced rs))

update_first-IsTraced :
    (p : WakeRequest → Bool) (f : WakeRequest → WakeRequest) (r : WakeRequest)
    (rs : List WakeRequest)
    → find p rs ≡ some r
    → IsNext r (f r)
    → All (IsTraced rs) (update_first p f rs)
update_first-IsTraced p f r [] e n = tt
update_first-IsTraced p f r (q ∷ rs) e n = elim (Bool-cases (p q)) [
  | inl here ↦
      let same : q ≡ r = ground arith in
      let next : IsNext q (f q) = rw same n in
      rw here (IsNext-IsTraced q (f q) rs next, All-weaker q rs rs (self-IsTraced rs))
  | inr later ↦ rw later (
    IsNext-IsTraced q q rs (IsNext-refl q),
    All-weaker q rs (update_first p f rs) (update_first-IsTraced p f r rs (ground arith) n),
  )
]

pub cancel-IsNext : (p : WakeRequest → Bool) (r : WakeRequest) → IsNext r (cancel_if p r)
unfolding cancel_if goes_to same_phase rank active
cancel-IsNext p r = (ground arith, ground arith)

pub advance-IsNext : (now : ℕ) (seen : Option ℕ) (r : WakeRequest) → IsNext r (advance now seen r)
unfolding advance goes_to same_phase rank is_sent waiting
advance-IsNext now seen r = (ground arith, ground arith)

pub interrupt-IsNext : (r : WakeRequest) → IsNext r (interrupt r)
unfolding interrupt goes_to same_phase rank active
interrupt-IsNext r = (ground arith, ground arith)

claim-IsNext :
    (now : ℕ) (id : Text) (r : WakeRequest)
    → claimable now id r ≡ true
    → IsNext r (claim_request now r)
unfolding waiting goes_to same_phase rank
claim-IsNext now id r c = (refl, ground arith)

result-IsNext :
    (now : ℕ) (seen : Option ℕ) (reported : Bool) (error : Option Text) (r : WakeRequest)
    → is_claimed r.phase ≡ true
    → IsNext r (apply_result now seen reported error r)
unfolding apply_result is_claimed advance goes_to same_phase rank is_sent
result-IsNext now seen true error r c = (ground arith, ground arith)
result-IsNext now seen false error r c = (ground arith, ground arith)

-- The requests behind a closure: those of before, or the one that it makes.
abbrev pub Traces : {A : Type 0} → (WakeRequest → Bool) → Mutation A → Type 0
Traces {A} made m =
    (d d' : WakeAccountData) (a : A)
    → m d ≡ ok (d', a)
    → All (λ q. (came_from d.requests q || made q) ≡ true) d'.requests

unfoldable pub none_made : WakeRequest → Bool
none_made r = false

pub All-old :
    (made : WakeRequest → Bool) (rs qs : List WakeRequest)
    → All (IsTraced rs) qs
    → All (λ q. (came_from rs q || made q) ≡ true) qs
All-old made rs [] h = tt
All-old made rs (q ∷ qs) h = (ground (arith, h.0), All-old made rs qs h.1)

module _ (made : WakeRequest → Bool) (d d' : WakeAccountData) where
  pub unchanged-traced :
      d'.requests ≡ d.requests → All (λ q. (came_from d.requests q || made q) ≡ true) d'.requests
  unchanged-traced e = rw e (All-old made d.requests d.requests (self-IsTraced d.requests))

  pub mapped-traced :
      (f : WakeRequest → WakeRequest)
      → ((r : WakeRequest) → IsNext r (f r))
      → d'.requests ≡ map f d.requests
      → All (λ q. (came_from d.requests q || made q) ≡ true) d'.requests
  mapped-traced f n e = rw e (All-old made d.requests _ (map-IsTraced f d.requests n))

  written-traced :
      (p : WakeRequest → Bool) (f : WakeRequest → WakeRequest) (r : WakeRequest)
      → find p d.requests ≡ some r
      → IsNext r (f r)
      → d'.requests ≡ update_first p f d.requests
      → All (λ q. (came_from d.requests q || made q) ≡ true) d'.requests
  written-traced p f r found n e =
      rw e (All-old made d.requests _ (update_first-IsTraced p f r d.requests found n))

pub take_job-Traces : (now : ℕ) (id : Text) → Traces none_made (Requests.take_job now id)
unfolding Requests.take_job
take_job-Traces now id d d' a e = elim (Option-cases (find (claimable now id) d.requests)) [
  | inl missing ↦ absurd (ground arith)
  | inr (r, found) ↦
      written-traced none_made d d' (claimable now id) (claim_request now) r found
        (claim-IsNext now id r (find_passes (claimable now id) r d.requests found)) (ground arith)
]

pub authorize-Traces :
    (now : ℕ) (id agent_id : Text) → Traces none_made (Requests.authorize now id agent_id)
unfolding Requests.authorize
authorize-Traces now id agent_id d d' a e = elim (Option-cases (find (is_request id) d.requests)) [
  | inl missing ↦ absurd (ground arith)
  | inr (r, found) ↦
      written-traced none_made d d' (is_request id) (λ q. record q { authorized_at_ms = some now })
        r found (IsNext-refl r) (ground arith)
]

pub record_result-Traces :
    (now : ℕ) (seen : Text → Option ℕ) (id agent_id : Text) (reported : Bool) (error : Option Text)
    → Traces none_made (Requests.record_result now seen id agent_id reported error)
unfolding Requests.record_result
record_result-Traces now seen id agent_id reported error d d' a e =
    elim (Option-cases (find (is_request id) d.requests)) [
      | inl missing ↦ absurd (ground arith)
      | inr (r, found) ↦ elim (Bool-cases (has_result r.phase)) [
        | inl old ↦ unchanged-traced none_made d d' (ground arith)
        | inr new ↦
            written-traced none_made d d' (is_request id)
              (apply_result now (seen r.target_id) reported error) r found
              (result-IsNext now (seen r.target_id) reported error r (ground arith)) (ground arith)
      ]
    ]

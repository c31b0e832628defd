-- ===== src/Wake/Requests/Once.antt =====
-- crates/rdesk_server/src/wake/routes.rs: operations on a request that are tried again.
use rdesk.Prelude.{
  ℕ, ◌≡◌, ◌≢◌, Text, text_eq_refl, Bool, true, false, Option, none, some, List, [], ◌∷◌, ◌++◌,
  arith, find, find_passes, update_first, Option-cases, inl, inr,
}
use rdesk.Wake.Model.{WakeAccountData, WakeRequest, ok, active, advance}
use rdesk.Wake.Requests
use rdesk.Wake.Requests.{
  is_request, apply_result, has_result, is_claimed, queue_request, new_request, active_for,
}
use rdesk.Wake.Devices.{is_target}

module _ {A : Type 0} (p : A → Bool) where
  find-update_first :
      (f : A → A) (a : A) (xs : List A)
      → find p xs ≡ some a
      → p (f a) ≡ true
      → find p (update_first p f xs) ≡ some (f a)
  find-update_first f a [] e h = cc
  find-update_first f a (b ∷ xs) e h = ground (arith, find-update_first f a xs)

  find-append :
      (a : A) (xs : List A) → find p xs ≡ none → p a ≡ true → find p (xs ++ a ∷ []) ≡ some a
  find-append a [] e h = ground arith
  find-append a (b ∷ xs) e h = ground (arith, find-append a xs)

-- A request that an agent was allowed to send is never allowed again, to no agent and at no time.
pub authorize_once :
    (now later : ℕ) (id agent_id other : Text) (d d' d'' : WakeAccountData) (ms ms' : ℕ)
    → Requests.authorize now id agent_id d ≡ ok (d', ms)
    → Requests.authorize later id other d' ≢ ok (d'', ms')
unfolding Requests.authorize
authorize_once now later id agent_id other d d' d'' ms ms' e h =
    elim (Option-cases (find (is_request id) d.requests)) [
      | inl missing ↦ ground arith
      | inr (r, found) ↦
          let again =
            find-update_first (is_request id) (λ q. record q { authorized_at_ms = some now }) r
              d.requests found (find_passes (is_request id) r d.requests found) in
          ground (arith, again)
    ]

apply_result-has :
    (now : ℕ) (seen : Option ℕ) (reported : Bool) (error : Option Text) (r : WakeRequest)
    → (has_result (apply_result now seen reported error r).phase ≡ true)
      × ((apply_result now seen reported error r).id ≡ r.id)
unfolding has_result apply_result advance
apply_result-has now seen true error r = ground arith
apply_result-has now seen false error r = ground arith

-- An agent that reports a result again, whatever it says then, gets the request as it was recorded
-- and changes nothing.
pub record_result_again :
    (now later : ℕ) (seen seen' : Text → Option ℕ) (id agent_id : Text) (reported reported' : Bool)
    (error error' : Option Text) (d d' : WakeAccountData) (r : WakeRequest)
    → Requests.record_result now seen id agent_id reported error d ≡ ok (d', r)
    → Requests.record_result later seen' id agent_id reported' error' d' ≡ ok (d', r)
unfolding Requests.record_result
record_result_again now later seen seen' id agent_id reported reported' error error' d d' r e =
    elim (Option-cases (find (is_request id) d.requests)) [
      | inl missing ↦ absurd (ground arith)
      | inr (q, found) ↦
          let has = apply_result-has now (seen q.target_id) reported error q in
          let again =
            find-update_first (is_request id) (apply_result now (seen q.target_id) reported error) q
              d.requests found (rw has.1 (find_passes (is_request id) q d.requests found)) in
          ground (arith, again, has.0)
    ]

-- A caller who asks again while the request is under way gets the same request, and no second one
-- is made.
pub create_request_again :
    (now later : ℕ) (target_seen agent_seen target_seen' agent_seen' : Text → Option ℕ)
    (id id' target_id : Text) (d d' : WakeAccountData) (r : WakeRequest)
    → Requests.create_request now target_seen agent_seen id target_id d ≡ ok (d', r)
    → Requests.create_request later target_seen' agent_seen' id' target_id d' ≡ ok (d', r)
unfolding Requests.create_request queue_request
create_request_again now later target_seen agent_seen target_seen' agent_seen' id id' target_id d d'
      r e =
    elim (Option-cases (find (is_target target_id) d.targets)) [
      | inl missing ↦ absurd (ground arith)
      | inr (t, found) ↦ elim (Option-cases (find (active_for t.id) d.requests)) [
        | inr (q, busy) ↦ ground arith
        | inl free ↦
            let waits =
              find-append (active_for t.id) (new_request now id t) d.requests free
                (unfold new_request active in ground (arith, text_eq_refl t.id)) in
            ground (arith, waits)
      ]
    ]

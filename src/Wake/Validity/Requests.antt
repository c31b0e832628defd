-- ===== src/Wake/Validity/Requests.antt =====
-- crates/rdesk_server/src/wake/routes.rs: the closures on wake requests, and valid data.
use rdesk.Prelude.{
  ℕ, ◌≤◌, ◌≡◌, refl, Text, text_eq, text_eq_iff, Bool, true, false, Option, none, some, List, [],
  ◌∷◌, ◌++◌, arith, count, All, map, find, update_first, count-append, count-map-le,
  count-update_first-le, count_of_find-none, All-append, All-map, All-update_first, find_passes,
  is_some, Option-cases, Bool-cases, sym, inl, inr,
}
use rdesk.Wake.Model.{WakeAccountData, WakeRequest, WakeTarget, active, waiting, advance, ok}
use rdesk.Wake.Model.Life.{IsSound, sound_at, advance-IsSound}
use rdesk.Wake.Requests
use rdesk.Wake.Requests.{
  active_for, new_request, claimable, claim_request, is_request, is_claimed, apply_result,
  has_result, advance_all, queue_request,
}
use rdesk.Wake.Devices.{is_target}
use rdesk.Wake.Validity.{IsValid, Keeps}

-- The same devices, and requests of which the two facts hold.
requests-IsValid :
    (d d' : WakeAccountData)
    → d'.agents ≡ d.agents
    → d'.targets ≡ d.targets
    → IsValid d
    → ((t : Text) → count (active_for t) d'.requests ≤ 1)
    → All IsSound d'.requests
    → IsValid d'
requests-IsValid d d' agents targets v single sound = record {
  few_agents = rw agents v.few_agents;
  few_targets = rw targets v.few_targets;
  single = single;
  sound = sound;
}

advance-active :
    (now : ℕ) (seen : Option ℕ) (t : Text) (r : WakeRequest)
    → active_for t (advance now seen r) ≡ true
    → active_for t r ≡ true
unfolding advance active
advance-active now seen t r h = ground arith

pub advance_all-Keeps : (now : ℕ) (beats : Text → Option ℕ) → Keeps (advance_all now beats)
unfolding advance_all
advance_all-Keeps now beats d d' a e v =
    requests-IsValid d d' (ground arith) (ground arith) v (λ t. ground (arith, v.single t, fewer t))
      (rw done
        (All-map IsSound step d.requests (λ r. advance-IsSound now (beats r.target_id) r) v.sound))
  where
    step : WakeRequest → WakeRequest
    step r = advance now (beats r.target_id) r

    done : d'.requests ≡ map step d.requests
    done = ground arith

    fewer : (t : Text) → count (active_for t) d'.requests ≤ count (active_for t) d.requests
    fewer t = rw done (
        count-map-le (active_for t) step d.requests
          (λ r. advance-active now (beats r.target_id) t r))

-- A write to the request that is found first.
module _ (q : WakeRequest → Bool) (f : WakeRequest → WakeRequest) (r : WakeRequest)
    (d d' : WakeAccountData) (found : find q d.requests ≡ some r) (agents : d'.agents ≡ d.agents)
    (targets : d'.targets ≡ d.targets) (written : d'.requests ≡ update_first q f d.requests) where
  update-IsValid :
      ((t : Text) → active_for t (f r) ≡ true → active_for t r ≡ true)
      → (IsSound r → IsSound (f r))
      → IsValid d
      → IsValid d'
  update-IsValid fewer sounder v =
      requests-IsValid d d' agents targets v
        (λ t. rw written (
          omega (
            arith,
            count-update_first-le (active_for t) q f r d.requests found (fewer t),
            v.single t,
          )))
        (rw written (All-update_first IsSound q f r d.requests found sounder v.sound))

claim-fewer :
    (now : ℕ) (id t : Text) (r : WakeRequest)
    → claimable now id r ≡ true
    → active_for t (claim_request now r) ≡ true
    → active_for t r ≡ true
unfolding waiting active
claim-fewer now id t r c h = ground arith

claim-IsSound :
    (now : ℕ) (id : Text) (r : WakeRequest)
    → claimable now id r ≡ true
    → IsSound r
    → IsSound (claim_request now r)
unfolding waiting sound_at
claim-IsSound now id r c h = ground arith

pub take_job-Keeps : (now : ℕ) (agent_id : Text) → Keeps (Requests.take_job now agent_id)
unfolding Requests.take_job
take_job-Keeps now id d d' a e v = elim (Option-cases (find (claimable now id) d.requests)) [
  | inl missing ↦ absurd (ground arith)
  | inr (r, found) ↦
      let fits = find_passes (claimable now id) r d.requests found in
      update-IsValid (claimable now id) (claim_request now) r d d' found (ground arith)
        (ground arith) (ground arith) (λ t. claim-fewer now id t r fits)
        (claim-IsSound now id r fits) v
]

abbrev pub authorize_request : ℕ → WakeRequest → WakeRequest
authorize_request now r = record r { authorized_at_ms = some now }

authorize-IsSound :
    (now : ℕ) (r : WakeRequest)
    → is_claimed r.phase ≡ true
    → IsSound r
    → IsSound (authorize_request now r)
unfolding is_claimed sound_at
authorize-IsSound now r c h = ground arith

pub authorize-Keeps : (now : ℕ) (id agent_id : Text) → Keeps (Requests.authorize now id agent_id)
unfolding Requests.authorize
authorize-Keeps now id agent_id d d' a e v = elim (Option-cases (find (is_request id) d.requests)) [
  | inl missing ↦ absurd (ground arith)
  | inr (r, found) ↦
      update-IsValid (is_request id) (authorize_request now) r d d' found (ground arith)
        (ground arith) (ground arith) (λ t h. h) (authorize-IsSound now r (ground arith)) v
]

apply_result-fewer :
    (now : ℕ) (seen : Option ℕ) (reported : Bool) (error : Option Text) (t : Text) (r : WakeRequest)
    → is_claimed r.phase ≡ true
    → active_for t (apply_result now seen reported error r) ≡ true
    → active_for t r ≡ true
unfolding apply_result is_claimed active
apply_result-fewer now seen true error t r c h = ground arith
apply_result-fewer now seen false error t r c h = ground arith

apply_result-IsSound :
    (now : ℕ) (seen : Option ℕ) (reported : Bool) (error : Option Text) (r : WakeRequest)
    → is_claimed r.phase ≡ true
    → (reported ≡ true → is_some r.authorized_at_ms ≡ true)
    → IsSound r
    → IsSound (apply_result now seen reported error r)
unfolding apply_result is_claimed sound_at
apply_result-IsSound now seen true error r c g h = ground (arith, g refl)
apply_result-IsSound now seen false error r c g h = ground arith

pub record_result-Keeps :
    (now : ℕ) (seen : Text → Option ℕ) (id agent_id : Text) (reported : Bool) (error : Option Text)
    → Keeps (Requests.record_result now seen id agent_id reported error)
unfolding Requests.record_result
record_result-Keeps now seen id agent_id reported error d d' a e v =
    elim (Option-cases (find (is_request id) d.requests)) [
      | inl missing ↦ absurd (ground arith)
      | inr (r, found) ↦ elim (Bool-cases (has_result r.phase)) [
        | inl old ↦ rw (same r found old) v
        | inr new ↦
            update-IsValid (is_request id) (apply_result now (seen r.target_id) reported error) r d
              d' found (ground arith) (ground arith) (ground arith)
              (λ t. apply_result-fewer now (seen r.target_id) reported error t r (ground arith))
              (apply_result-IsSound now (seen r.target_id) reported error r (ground arith)
                (λ h. ground arith))
              v
      ]
    ]
  where
    same :
        (r : WakeRequest)
        → find (is_request id) d.requests ≡ some r
        → has_result r.phase ≡ true
        → d' ≡ d
    same r found old = ground arith

-- A new request, for a target that has no active one.
new_request-single :
    (now : ℕ) (id : Text) (target : WakeTarget) (t : Text) (rs : List WakeRequest)
    → find (active_for target.id) rs ≡ none
    → count (active_for t) rs ≤ 1
    → count (active_for t) (rs ++ new_request now id target ∷ []) ≤ 1
unfolding new_request
new_request-single now id target t rs e h = elim (Bool-cases (text_eq target.id t)) [
  | inl same ↦ ground (
    arith,
    count-append (active_for t) rs (new_request now id target ∷ []),
    count_of_find-none (active_for t) rs (rw (sym ((text_eq_iff target.id t).0 same)) e),
  )
  | inr other ↦ ground (arith, count-append (active_for t) rs (new_request now id target ∷ []))
]

queue_request-Keeps :
    (now : ℕ) (target_seen : Option ℕ) (agent_seen : Text → Option ℕ) (id : Text) (t : WakeTarget)
    (d d' : WakeAccountData) (a : WakeRequest)
    → find (active_for t.id) d.requests ≡ none
    → queue_request now target_seen agent_seen id t d ≡ ok (d', a)
    → IsValid d
    → IsValid d'
unfolding queue_request
queue_request-Keeps now target_seen agent_seen id t d d' a free e v =
    requests-IsValid d d' (ground arith) (ground arith) v
      (λ u. rw queued_one (new_request-single now id t u d.requests free (v.single u)))
      (rw queued_one (All-append IsSound d.requests _ v.sound (fresh_sound, tt)))
  where
    queued_one : d'.requests ≡ d.requests ++ new_request now id t ∷ []
    queued_one = ground arith

    fresh_sound : IsSound (new_request now id t)
    fresh_sound = unfold new_request sound_at in refl

pub create_request-Keeps :
    (now : ℕ) (target_seen agent_seen : Text → Option ℕ) (id target_id : Text)
    → Keeps (Requests.create_request now target_seen agent_seen id target_id)
unfolding Requests.create_request
create_request-Keeps now target_seen agent_seen id target_id d d' a e v =
    elim (Option-cases (find (is_target target_id) d.targets)) [
      | inl missing ↦ absurd (ground arith)
      | inr (t, found) ↦ elim (Option-cases (find (active_for t.id) d.requests)) [
        | inl free ↦
            queue_request-Keeps now (target_seen t.id) agent_seen id t d d' a free (ground arith) v
        | inr (r, busy) ↦ rw (same t r found busy) v
      ]
    ]
  where
    same :
        (t : WakeTarget) (r : WakeRequest)
        → find (is_target target_id) d.targets ≡ some t
        → find (active_for t.id) d.requests ≡ some r
        → d' ≡ d
    same t r found busy = ground arith

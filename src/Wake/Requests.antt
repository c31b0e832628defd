-- ===== src/Wake/Requests.antt =====
-- crates/rdesk_server/src/wake/routes.rs: what the handlers do to the wake requests of an account.
-- Each function is the closure that its handler gives to `update_wake`.
pub mod Once
use rdesk.Prelude.{
  ℕ, ◌+◌, ◌-◌, ◌==◌, min, Text, text_eq, Bool, true, false, ◌&&◌, ◌||◌, not, Option, none, some, [],
  ◌∷◌, ◌++◌, map, ltb, leb, if◌then◌else◌, is_some, is_none, is_some_and, any, find, keep,
  update_first, length,
}
use rdesk.Wake.Model.{
  ok, ◌>>=◌, ◌>>◌, fail_if, ok_or, WakeAccountData, WakeTarget, WakeRequest, WakeError, WakePhase,
  queued, claimed, sent, online, unconfirmed, failed, active, waiting, advance, for_target,
  not_found, conflict, rate_limited, unauthorized, setup_incomplete, target_online, agent_offline,
}
use rdesk.Wake.Devices.{Mutation, agent_enabled, is_target}

-- `fresh`: seen within the last thirty seconds.
abbrev pub fresh : ℕ → Option ℕ → Bool
fresh now = is_some_and (λ t. ltb (now - t) 30000)

-- `advance`'s loop; `beats` says when a target was last seen.
unfoldable pub advance_all : ℕ → (Text → Option ℕ) → Mutation (Unit {0})
advance_all now beats d =
    ok (record d { requests = map (λ r. advance now (beats r.target_id) r) d.requests }, tt)

unfoldable pub new_request : ℕ → Text → WakeTarget → WakeRequest
new_request now id t = record {
  id = id;
  target_id = t.id;
  agent_id = t.agent_id;
  target_revision = t.revision;
  created_at_ms = now;
  expires_at_ms = now + 30000;
  observe_until_ms = now + 120000;
  phase = queued;
  claimed_at_ms = none;
  authorized_at_ms = none;
  sent_at_ms = none;
  online_at_ms = none;
  error_code = none;
}

abbrev pub active_for : Text → WakeRequest → Bool
active_for id r = for_target id r && active r.phase

abbrev pub made_within : ℕ → ℕ → WakeRequest → Bool
made_within ms now r = ltb (now - r.created_at_ms) ms

abbrev pub too_many : ℕ → WakeTarget → WakeAccountData → Bool
too_many now t d =
    leb 10 (length (keep (made_within 60000 now) d.requests))
    || any (λ r. for_target t.id r && made_within 30000 now r) d.requests

-- The checks of a request for a target that has no active one, and the request.
unfoldable pub queue_request :
    ℕ → Option ℕ → (Text → Option ℕ) → Text → WakeTarget → Mutation WakeRequest
unfolding new_request
queue_request now target_seen agent_seen id t d = do
  fail_if (fresh now target_seen) target_online
  fail_if (not (agent_enabled t.agent_id d && fresh now (agent_seen t.agent_id))) agent_offline
  fail_if (too_many now t d) rate_limited
  ok (record d { requests = d.requests ++ new_request now id t ∷ [] }, new_request now id t)

unfoldable pub create_request :
    ℕ → (Text → Option ℕ) → (Text → Option ℕ) → Text → Text → Mutation WakeRequest
unfolding queue_request
create_request now target_seen agent_seen id target_id d = do
  t ← ok_or (find (is_target target_id) d.targets) not_found
  fail_if (not t.setup_complete) setup_incomplete
  elim (find (active_for t.id) d.requests) [
    | some r ↦ ok (d, r)
    | none ↦ queue_request now (target_seen t.id) agent_seen id t d
  ]

-- What an agent can be given: not authorized to be sent yet, and in time.
abbrev pub claimable : ℕ → Text → WakeRequest → Bool
claimable now agent_id r =
    text_eq r.agent_id agent_id
    && waiting r.phase
    && is_none r.authorized_at_ms
    && ltb now r.expires_at_ms

abbrev pub same_revision : Text → WakeRequest → WakeTarget → Bool
same_revision agent_id r t =
    text_eq t.id r.target_id && text_eq t.agent_id agent_id && t.revision == r.target_revision

pub record Job : Type 0 where
  pub id : Text
  pub target_id : Text
  pub mac : Text
  pub revision : ℕ
  pub setup_complete : Bool
  pub remaining_ms : ℕ

-- `get_or_insert(now)`.
abbrev pub or_now : ℕ → Option ℕ → Option ℕ
or_now now none = some now
or_now now (some t) = some t

abbrev pub claim_request : ℕ → WakeRequest → WakeRequest
claim_request now r = record r { phase = claimed; claimed_at_ms = or_now now r.claimed_at_ms }

-- The closure of `poll`.
unfoldable pub take_job : ℕ → Text → Mutation Job
unfolding waiting
take_job now agent_id d = do
  fail_if (not (agent_enabled agent_id d)) unauthorized
  r ← ok_or (find (claimable now agent_id) d.requests) conflict
  t ← ok_or (find (same_revision agent_id r) d.targets) conflict
  ok (
    record d { requests = update_first (claimable now agent_id) (claim_request now) d.requests },
    record {
      id = r.id;
      target_id = r.target_id;
      mac = t.mac;
      revision = t.revision;
      setup_complete = t.setup_complete;
      remaining_ms = r.expires_at_ms - now;
    },
  )

abbrev pub is_request : Text → WakeRequest → Bool
is_request id r = text_eq r.id id

unfoldable pub is_claimed : WakePhase → Bool
is_claimed claimed = true
is_claimed _ = false

-- The closure of `authorize`: how long the agent may take to send, two seconds at most.
unfoldable pub authorize : ℕ → Text → Text → Mutation ℕ
unfolding is_claimed
authorize now id agent_id d = do
  fail_if (not (agent_enabled agent_id d)) unauthorized
  r ← ok_or (find (is_request id) d.requests) not_found
  fail_if (leb r.expires_at_ms now) WakeError.expired
  fail_if (not (is_claimed r.phase) || is_some r.authorized_at_ms) conflict
  fail_if (not (any (same_revision agent_id r) d.targets)) conflict
  ok (
    record d {
      requests =
          update_first (is_request id) (λ q. record q { authorized_at_ms = some now }) d.requests;
    },
    min (r.expires_at_ms - now) 2000,
  )

-- `matches!(phase, Sent | Online | Unconfirmed | Failed)`: a result that is there already.
unfoldable pub has_result : WakePhase → Bool
has_result sent = true
has_result online = true
has_result unconfirmed = true
has_result failed = true
has_result _ = false

-- What a result makes of the request: `reported_sent` is `b.phase == "sent"`.
unfoldable pub apply_result : ℕ → Option ℕ → Bool → Option Text → WakeRequest → WakeRequest
unfolding advance
apply_result now seen true error r =
    advance now seen (record r { phase = sent; sent_at_ms = some now })
apply_result now seen false error r = record r { phase = failed; error_code = error }

-- The closure of `result`.
unfoldable pub record_result :
    ℕ → (Text → Option ℕ) → Text → Text → Bool → Option Text → Mutation WakeRequest
unfolding has_result is_claimed apply_result
record_result now target_seen id agent_id reported_sent error d = do
  fail_if (not (agent_enabled agent_id d)) unauthorized
  r ← ok_or (find (is_request id) d.requests) not_found
  if has_result r.phase then ok (d, r) else do
    fail_if (not (is_claimed r.phase)) conflict
    fail_if (is_none r.authorized_at_ms && reported_sent) conflict
    fail_if (leb r.expires_at_ms now) WakeError.expired
    ok (
      record d {
        requests =
            update_first (is_request id)
              (apply_result now (target_seen r.target_id) reported_sent error) d.requests;
      },
      apply_result now (target_seen r.target_id) reported_sent error r,
    )

-- ===== src/Wake/Routes.antt =====
-- crates/rdesk_server/src/wake/routes.rs: the handlers. A handler gets the time at its start, the
-- Authorization header, and a `Turn` for each wait for the store's lock. The ids, the tokens and
-- their digests that a handler draws are arguments. What a handler returns of the data that it has
-- written is left out, but for the tokens, the requests and the jobs.
use rdesk.Prelude.{
  ℕ, ◌-◌, Text, text_eq, trim, byte_len, Bool, true, false, ◌&&◌, ◌||◌, not, Option, none, some,
  List, ltb, leb, ◌==◌, if◌then◌else◌, any, all, find, keep, is_empty, keep_if,
}
use rdesk.Map
use rdesk.Map.{Map}
use rdesk.Server.State.{AppState, UserRecord}
use rdesk.Wake.Model.{
  WakeResult, ok, err, fail_if, ok_or, not_found, invalid_device, invalid_phase, WakeRequest,
  WakePhase, advance, retention_ms,
}
use rdesk.Wake.Mac
use rdesk.Wake.Devices.{TargetFields}
use rdesk.Wake.Devices
use rdesk.Wake.Requests.{Job, advance_all, claimable}
use rdesk.Wake.Requests
use rdesk.Wake.Store.{Action, ◌>>=◌, ◌>>◌, pure, lift, gets, modify, Turn, update_wake}
use rdesk.Wake.Callers.{
  account, bearer, checked_name, agent_seen, target_seen, put_agents, put_targets, device_owner,
  owner_for_request,
}

-- The user as the state has it now: `users.get(owner).ok_or(not_found)`.
abbrev pub user_at : Text → Action UserRecord
user_at owner s = (s, ok_or (Map.get owner s.users) not_found)

unfoldable pub is_phase : WakePhase → WakePhase → Bool
is_phase WakePhase.queued WakePhase.queued = true
is_phase WakePhase.claimed WakePhase.claimed = true
is_phase WakePhase.sent WakePhase.sent = true
is_phase WakePhase.online WakePhase.online = true
is_phase WakePhase.unconfirmed WakePhase.unconfirmed = true
is_phase WakePhase.expired WakePhase.expired = true
is_phase WakePhase.failed WakePhase.failed = true
is_phase WakePhase.cancelled WakePhase.cancelled = true
is_phase WakePhase.interrupted WakePhase.interrupted = true
is_phase _ _ = false

-- Whether `advance` would change a phase, or a request is old enough to be dropped.
unfoldable pub needs_advance : ℕ → (Text → Option ℕ) → List WakeRequest → Bool
needs_advance now beats requests =
    any (λ r. not (is_phase (advance now (beats r.target_id) r).phase r.phase)) requests
    || any (λ r. leb retention_ms (now - r.created_at_ms)) requests

-- `advance` of routes.rs: the data are written only if something changed.
unfoldable pub advance_user : ℕ → Turn → Text → Action (Unit {0})
unfolding needs_advance update_wake
advance_user now turn owner = do
  beats ← gets target_seen
  user ← user_at owner
  if needs_advance now beats user.wake.requests
      then update_wake turn owner (advance_all now beats)
      else pure tt

-- A request's header and its turn.
pub record Call : Type 0 where
  pub now : ℕ
  pub header : Option Text
  pub turn : Turn

unfoldable pub create_agent : Call → Text → Text → Text → Text → Action (Text × Text)
create_agent c id token hash raw_name = do
  u ← account c.now c.header
  name ← lift (checked_name raw_name)
  update_wake c.turn u.user_id (Devices.create_agent id name hash)
  pure (id, token)

-- The fields of a `TargetInput`, with its name trimmed and its address normalized.
unfoldable pub checked_fields : TargetFields → WakeResult TargetFields
checked_fields b = elim (checked_name b.name) [
  | err e ↦ err e
  | ok name ↦ elim (Mac.parse b.mac) [
    | err e ↦ err e
    | ok mac ↦ ok (record b { name = name; mac = Mac.normalized mac })
  ]
]

abbrev pub invalid_device_id : Text → Bool
invalid_device_id id = is_empty (trim id) || ltb 128 (byte_len id)

unfoldable pub create_target : Call → Text → Text → Text → TargetFields → Action (Text × Text)
create_target c id token hash b = do
  u ← account c.now c.header
  fields ← lift (checked_fields b)
  lift (fail_if (invalid_device_id b.device_id) invalid_device)
  update_wake c.turn u.user_id (Devices.create_target c.turn.now id hash fields)
  pure (id, token)

unfoldable pub update_target : Call → Text → TargetFields → Action (Unit {0})
update_target c id b = do
  u ← account c.now c.header
  fields ← lift (checked_fields b)
  update_wake c.turn u.user_id (Devices.update_target id fields)

-- `wake_runtime.targets.lock().remove(id)`, and the same for the agents.
unfoldable pub forget_target : Text → AppState → AppState
unfolding put_targets
forget_target id s = put_targets (Map.remove id s.wake_runtime.targets) s

unfoldable pub forget_agent : Text → AppState → AppState
unfolding put_agents
forget_agent id s = put_agents (Map.remove id s.wake_runtime.agents) s

unfoldable pub delete_target : Call → Text → Action (Unit {0})
delete_target c id = do
  u ← account c.now c.header
  update_wake c.turn u.user_id (Devices.delete_target id)
  modify (forget_target id)

unfoldable pub rotate_target : Call → Text → Text → Text → Action (Text × Text)
rotate_target c id token hash = do
  u ← account c.now c.header
  update_wake c.turn u.user_id (Devices.rotate_target id hash)
  modify (forget_target id)
  pure (id, token)

unfoldable pub delete_agent : Call → Text → Action (Unit {0})
delete_agent c id = do
  u ← account c.now c.header
  update_wake c.turn u.user_id (Devices.revoke id)
  modify (forget_agent id)

unfoldable pub stop_agent : Call → Text → Action (Unit {0})
stop_agent c id = do
  u ← account c.now c.header
  update_wake c.turn u.user_id (Devices.stop_helper id none)
  modify (forget_agent id)

unfoldable pub enable_agent : Call → Text → Text → Text → Text → Action (Text × Text)
enable_agent c id token hash raw_name = do
  u ← account c.now c.header
  name ← lift (checked_name raw_name)
  update_wake c.turn u.user_id (Devices.enable_agent id name hash)
  modify (forget_agent id)
  pure (id, token)

-- `create_request` waits for the lock twice: `before` is the turn of its `advance`.
unfoldable pub create_request : Call → Turn → Text → Text → Action WakeRequest
create_request c before id target_id = do
  u ← account c.now c.header
  advance_user c.now before u.user_id
  s ← gets (λ s. c.turn.others s)
  update_wake c.turn u.user_id
      (Requests.create_request c.turn.now (target_seen s) (agent_seen s) id target_id)

unfoldable pub request_status : Call → Text → Action WakeRequest
request_status c id = do
  u ← account c.now c.header
  advance_user c.now c.turn u.user_id
  user ← user_at u.user_id
  lift (ok_or (find (λ r. text_eq r.id id) user.wake.requests) not_found)

unfoldable pub history : Call → Text → Action (List WakeRequest)
history c target_id = do
  u ← account c.now c.header
  advance_user c.now c.turn u.user_id
  user ← user_at u.user_id
  lift (fail_if (not (any (λ t. text_eq t.id target_id) user.wake.targets)) not_found)
  pure (keep (λ r. text_eq r.target_id target_id) user.wake.requests)

-- `r.expires_at_ms > now_ms()` and the rest: whether `poll` goes to the store.
abbrev pub has_job : ℕ → Text → Option UserRecord → Bool
has_job now id none = false
has_job now id (some u) = any (claimable now id) u.wake.requests

module _ (digest : Text → Text) where
  unfoldable pub heartbeat : Call → Text → Action (Unit {0})
  unfolding device_owner put_targets
  heartbeat c id = do
    s ← gets (λ s. s)
    lift (device_owner digest c.header id false s)
    modify (λ s. put_targets (Map.insert id c.now s.wake_runtime.targets) s)

  unfoldable pub disable_agent : Call → Text → Action (Unit {0})
  unfolding device_owner
  disable_agent c id = do
    s ← gets (λ s. s)
    owner ← lift (device_owner digest c.header id true s)
    token ← lift (bearer c.header)
    update_wake c.turn owner (Devices.stop_helper id (some (digest token)))
    modify (forget_agent id)

  -- The start of `poll`, which counts as a sign of life of the agent.
  unfoldable pub begin_poll : Call → Text → Action Text
  unfolding device_owner put_agents
  begin_poll c id = do
    s ← gets (λ s. s)
    owner ← lift (device_owner digest c.header id true s)
    modify (λ s. put_agents (Map.insert id c.now s.wake_runtime.agents) s)
    pure owner

  -- One round of its loop: a job, or none yet.
  unfoldable pub poll_round : Call → Text → Text → Action (Option Job)
  unfolding device_owner
  poll_round c id owner = do
    s ← gets (λ s. s)
    lift (device_owner digest c.header id true s)
    if has_job c.now id (Map.get owner s.users)
        then (do job ← update_wake c.turn owner (Requests.take_job c.turn.now id); pure (some job))
        else pure none

  unfoldable pub authorize : Call → Text → Action ℕ
  authorize c id = do
    s ← gets (λ s. s)
    found ← lift (owner_for_request digest c.header id s)
    update_wake c.turn found.0 (Requests.authorize c.turn.now id found.1)

  -- `b.phase` is read as `some true` for "sent", `some false` for "failed".
  unfoldable pub result : Call → Text → Option Bool → Option Text → Action WakeRequest
  result c id phase error_code = do
    s ← gets (λ s. s)
    found ← lift (owner_for_request digest c.header id s)
    reported_sent ← lift (ok_or phase invalid_phase)
    seen ← gets (λ s. target_seen (c.turn.others s))
    update_wake c.turn found.0 (
        Requests.record_result c.turn.now seen id found.1 reported_sent (
          keep_if (λ e. leb (byte_len e) 64 && all (λ b. (leb b'a' b && leb b b'z') || b == b'_') e)
            error_code))

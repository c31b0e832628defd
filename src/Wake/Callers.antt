-- ===== src/Wake/Callers.antt =====
-- crates/rdesk_server/src/wake/routes.rs: who calls, and what the runtime knows of the devices.
-- The SHA-256 of a token, as hexadecimal text, is the parameter `digest`.
use rdesk.Prelude.{
  ℕ, ◌==◌, Text, text_eq, trim, byte_len, Bool, true, false, ◌&&◌, ◌||◌, Option, none, some, [],
  ◌∷◌, ltb, if◌then◌else◌, any, find, is_empty, length,
}
use rdesk.Map
use rdesk.Map.{Map}
use rdesk.Server.State.{AppState, UserRecord}
use rdesk.Server.Sessions.{authenticated_user, bearer_of}
use rdesk.Wake.Model.{
  WakeResult, ok, err, ok_or, unauthorized, invalid_name, WakeAgent, WakeTarget, WakeRequest,
}
use rdesk.Wake.Store.{Action}

unfoldable pub account : ℕ → Option Text → Action UserRecord
account now header s =
    let (s', user) = authenticated_user now header s in (s', ok_or user unauthorized)

unfoldable pub bearer : Option Text → WakeResult Text
bearer header = ok_or (bearer_of header) unauthorized

-- `name`: trimmed, not empty, 80 characters at most.
unfoldable pub checked_name : Text → WakeResult Text
unfolding trim
checked_name raw =
    if is_empty (trim raw) || ltb 80 (length (trim raw)) then err invalid_name else ok (trim raw)

abbrev pub agent_seen : AppState → Text → Option ℕ
agent_seen s id = Map.get id s.wake_runtime.agents

abbrev pub target_seen : AppState → Text → Option ℕ
target_seen s id = Map.get id s.wake_runtime.targets

unfoldable pub put_agents : Map ℕ → AppState → AppState
put_agents agents s = record s { wake_runtime = record s.wake_runtime { agents = agents } }

unfoldable pub put_targets : Map ℕ → AppState → AppState
put_targets targets s = record s { wake_runtime = record s.wake_runtime { targets = targets } }

abbrev pub agent_holds : Text → Text → WakeAgent → Bool
agent_holds id hash a = text_eq a.id id && a.enabled && text_eq a.token_hash hash

abbrev pub target_holds : Text → Text → WakeTarget → Bool
target_holds id hash t = text_eq t.id id && text_eq t.token_hash hash

-- The test of `device_owner` on one user.
unfoldable pub owns_device : Bool → Text → Text → UserRecord → Bool
owns_device true id hash u = any (agent_holds id hash) u.wake.agents
owns_device false id hash u = any (target_holds id hash) u.wake.targets

abbrev pub owner_id : Option (Text × UserRecord) → WakeResult Text
owner_id none = err unauthorized
owner_id (some (k, u)) = ok u.user_id

module _ (digest : Text → Text) where
  unfoldable pub owner_by_token : Bool → Text → AppState → WakeResult Text → WakeResult Text
  unfolding owns_device
  owner_by_token agent id s (err e) = err e
  owner_by_token agent id s (ok token) =
      if byte_len token == 64
      then owner_id (Map.find_entry (λ _ u. owns_device agent id (digest token) u) s.users)
      else err unauthorized

  unfoldable pub device_owner : Option Text → Text → Bool → AppState → WakeResult Text
  unfolding owner_by_token bearer
  device_owner header id agent s = owner_by_token agent id s (bearer header)

-- The owner of a request, and its agent.
abbrev pub request_with : Text → UserRecord → Option WakeRequest
request_with id u = find (λ r. text_eq r.id id) u.wake.requests

unfoldable pub find_request : Text → Map UserRecord → WakeResult (Text × Text)
find_request id [] = err unauthorized
find_request id ((k, u) ∷ rest) = elim (request_with id u) [
  | some r ↦ ok (u.user_id, r.agent_id)
  | none ↦ find_request id rest
]

unfoldable pub owner_for_request :
    (Text → Text) → Option Text → Text → AppState → WakeResult (Text × Text)
unfolding device_owner find_request
owner_for_request digest header id s = elim (find_request id s.users) [
  | err e ↦ err e
  | ok (owner, agent_id) ↦ elim (device_owner digest header agent_id true s) [
    | err e ↦ err e
    | ok holder ↦ if text_eq holder owner then ok (owner, agent_id) else err unauthorized
  ]
]

-- ===== src/Wake/Devices.antt =====
-- crates/rdesk_server/src/wake/routes.rs and pairing.rs: what the handlers do to the targets and
-- agents of an account. Each function is the closure that its handler gives to `update_wake`.
use rdesk.Prelude.{
  ℕ, suc, Text, text_eq, Bool, true, false, ◌&&◌, not, Option, none, some, [], ◌∷◌, ◌++◌, map, leb,
  any, find, keep, update_first, length,
}
use rdesk.Wake.Model.{
  WakeResult, ok, ◌>>=◌, ◌>>◌, fail_if, ok_or, WakeAccountData, WakeTarget, WakeAgent,
  cancel_target, cancel_if, for_agent, for_target, not_found, conflict, rate_limited, unauthorized,
}

-- A closure: the data that it leaves, and its value. On an error the data are dropped.
abbrev pub Mutation : Type 0 → Type 0
Mutation A = WakeAccountData → WakeResult (WakeAccountData × A)

abbrev pub agent_enabled : Text → WakeAccountData → Bool
agent_enabled id d = any (λ (a : WakeAgent). text_eq a.id id && a.enabled) d.agents

abbrev pub is_target : Text → WakeTarget → Bool
is_target id t = text_eq t.id id

abbrev pub is_agent : Text → WakeAgent → Bool
is_agent id a = text_eq a.id id

unfoldable pub create_agent : Text → Text → Text → Mutation (Unit {0})
create_agent id name hash d = do
  fail_if (leb 5 (length d.agents)) rate_limited
  ok (
    record d {
      agents = d.agents ++ record { id = id; name = name; token_hash = hash; enabled = true } ∷ [];
    },
    tt,
  )

-- The fields of `TargetInput`, checked and normalized.
pub record TargetFields : Type 0 where
  pub name : Text
  pub device_id : Text
  pub mac : Text
  pub agent_id : Text

unfoldable pub create_target : ℕ → Text → Text → TargetFields → Mutation (Unit {0})
create_target now id hash b d = do
  fail_if (leb 20 (length d.targets)) rate_limited
  fail_if (not (agent_enabled b.agent_id d)) not_found
  fail_if (any (λ t. text_eq t.device_id b.device_id) d.targets) conflict
  ok (
    record d {
      targets =
          d.targets
          ++ record {
            setup_complete = true;
            id = id;
            name = b.name;
            device_id = b.device_id;
            mac = b.mac;
            agent_id = b.agent_id;
            revision = 1;
            token_hash = hash;
            created_at_ms = now;
          }
            ∷ [];
    },
    tt,
  )

unfoldable pub update_target : Text → TargetFields → Mutation (Unit {0})
unfolding cancel_target
update_target id b d = do
  fail_if (not (agent_enabled b.agent_id d)) not_found
  t ← ok_or (find (is_target id) d.targets) not_found
  ok (
    cancel_target id (record d {
      targets =
          update_first (is_target id)
            (λ t. record t {
              name = b.name;
              mac = b.mac;
              agent_id = b.agent_id;
              revision = suc t.revision;
            })
            d.targets;
    }),
    tt,
  )

unfoldable pub delete_target : Text → Mutation (Unit {0})
delete_target id d = do
  fail_if (not (any (is_target id) d.targets)) not_found
  ok (
    record d {
      targets = keep (λ t. not (is_target id t)) d.targets;
      requests = keep (λ r. not (for_target id r)) d.requests;
    },
    tt,
  )

unfoldable pub rotate_target : Text → Text → Mutation (Unit {0})
rotate_target id hash d = do
  t ← ok_or (find (is_target id) d.targets) not_found
  ok (
    record d {
      targets = update_first (is_target id) (λ t. record t { token_hash = hash }) d.targets;
    },
    tt,
  )

-- The loop that cancels what an agent has to do.
unfoldable pub cancel_agent : Text → WakeAccountData → WakeAccountData
unfolding cancel_if
cancel_agent id d = record d { requests = map (cancel_if (for_agent id)) d.requests }

unfoldable pub revoke : Text → Mutation (Unit {0})
unfolding cancel_agent
revoke id d = do
  fail_if (not (any (is_agent id) d.agents)) not_found
  ok (cancel_agent id (record d { agents = keep (λ a. not (is_agent id a)) d.agents }), tt)

-- Whether a late stop comes with a token that has been replaced since.
abbrev pub stop_outdated : Option Text → WakeAgent → Bool
stop_outdated none agent = false
stop_outdated (some hash) agent = not (text_eq hash agent.token_hash && agent.enabled)

unfoldable pub stop_helper : Text → Option Text → Mutation (Unit {0})
unfolding cancel_agent
stop_helper id expected_hash d = do
  agent ← ok_or (find (is_agent id) d.agents) not_found
  fail_if (stop_outdated expected_hash agent) unauthorized
  ok (
    cancel_agent id (record d {
      agents =
          update_first (is_agent id) (λ a. record a { enabled = false; token_hash = [] }) d.agents;
    }),
    tt,
  )

unfoldable pub enable_agent : Text → Text → Text → Mutation (Unit {0})
unfolding cancel_agent
enable_agent id name hash d = do
  agent ← ok_or (find (is_agent id) d.agents) not_found
  ok (
    cancel_agent id (record d {
      agents =
          update_first (is_agent id)
            (λ a. record a { name = name; enabled = true; token_hash = hash }) d.agents;
    }),
    tt,
  )

-- `claim` of pairing.rs, behind its checks of the pairing: the new target has no agent yet.
unfoldable pub enroll_target :
    ℕ → Text → Text → TargetFields → WakeAccountData → WakeResult (WakeAccountData × Unit {0})
enroll_target now id hash p d = do
  fail_if (leb 20 (length d.targets)) rate_limited
  fail_if (any (λ t. text_eq t.device_id p.device_id) d.targets) conflict
  ok (
    record d {
      targets =
          d.targets
          ++ record {
            setup_complete = false;
            id = id;
            name = p.name;
            device_id = p.device_id;
            mac = p.mac;
            agent_id = [];
            revision = 1;
            token_hash = hash;
            created_at_ms = now;
          }
            ∷ [];
    },
    tt,
  )

-- `complete` of pairing.rs.
unfoldable pub complete_target : Text → Text → Mutation (Unit {0})
unfolding cancel_target
complete_target id agent_id d = do
  fail_if (not (agent_enabled agent_id d)) not_found
  t ← ok_or (find (is_target id) d.targets) not_found
  ok (
    cancel_target id (record d {
      targets =
          update_first (is_target id)
            (λ t. record t {
              agent_id = agent_id;
              setup_complete = true;
              revision = suc t.revision;
            })
            d.targets;
    }),
    tt,
  )

-- ===== src/Wake/Views.antt =====
-- crates/rdesk_server/src/wake/routes.rs: the lists of targets and of agents that a caller gets.
use rdesk.Prelude.{ℕ, Text, text_eq, Bool, ◌&&◌, Option, List, map, any}
use rdesk.Server.State.{AppState}
use rdesk.Wake.Model.{WakeAgent, WakeTarget}
use rdesk.Wake.Requests.{fresh}
use rdesk.Wake.Store.{Action, ◌>>=◌, ◌>>◌, pure, gets}
use rdesk.Wake.Callers.{account, agent_seen, target_seen}
use rdesk.Wake.Routes.{Call, user_at, advance_user}

pub record TargetView : Type 0 where
  pub id : Text
  pub name : Text
  pub device_id : Text
  pub mac : Text
  pub agent_id : Text
  pub revision : ℕ
  pub setup_complete : Bool
  pub online : Bool
  pub last_seen_ms : Option ℕ
  pub agent_online : Bool

pub record AgentView : Type 0 where
  pub id : Text
  pub name : Text
  pub enabled : Bool
  pub online : Bool
  pub last_seen_ms : Option ℕ

unfoldable pub view_target : ℕ → AppState → List WakeAgent → WakeTarget → TargetView
view_target now s agents t = record {
  id = t.id;
  name = t.name;
  device_id = t.device_id;
  mac = t.mac;
  agent_id = t.agent_id;
  revision = t.revision;
  setup_complete = t.setup_complete;
  online = fresh now (target_seen s t.id);
  last_seen_ms = target_seen s t.id;
  agent_online =
      any (λ a. text_eq a.id t.agent_id && a.enabled) agents && fresh now (agent_seen s t.agent_id);
}

unfoldable pub view_agent : ℕ → AppState → WakeAgent → AgentView
view_agent now s a = record {
  id = a.id;
  name = a.name;
  enabled = a.enabled;
  online = a.enabled && fresh now (agent_seen s a.id);
  last_seen_ms = agent_seen s a.id;
}

-- `now` is the time when the answer is made.
unfoldable pub targets : Call → ℕ → Action (List TargetView)
unfolding account advance_user view_target
targets c now = do
  u ← account c.now c.header
  advance_user c.now c.turn u.user_id
  user ← user_at u.user_id
  s ← gets (λ s. s)
  pure (map (view_target now s user.wake.agents) user.wake.targets)

unfoldable pub agents : Call → ℕ → Action (List AgentView)
unfolding account view_agent
agents c now = do
  u ← account c.now c.header
  s ← gets (λ s. s)
  pure (map (view_agent now s) u.wake.agents)

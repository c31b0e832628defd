-- ===== src/Wake/Sweep.antt =====
-- crates/rdesk_server/src/wake/routes.rs: `cleanup`, which runs with the server's cleanup.
pub mod Runtime
use rdesk.Prelude.{
  ℕ, ◌-◌, Text, text_eq, Bool, ◌&&◌, List, [], ◌∷◌, ◌++◌, ltb, any, map, is_some_and,
}
use rdesk.Map
use rdesk.Map.{Map}
use rdesk.Server.State.{AppState, UserRecord}
use rdesk.Wake.Model.{WakeAgent, WakeTarget, retention_ms}
use rdesk.Wake.Pairing.State
use rdesk.Wake.Callers.{put_agents, put_targets}
use rdesk.Wake.Store.{Turn}
use rdesk.Wake.Routes.{advance_user}

-- The identifiers that some account has: the sets `agents` and `targets`.
unfoldable pub agent_ids : List UserRecord → List Text
agent_ids [] = []
agent_ids (u ∷ users) = map (λ a. a.id) u.wake.agents ++ agent_ids users

unfoldable pub target_ids : List UserRecord → List Text
target_ids [] = []
target_ids (u ∷ users) = map (λ t. t.id) u.wake.targets ++ target_ids users

abbrev pub contains : List Text → Text → Bool
contains ids id = any (λ i. text_eq i id) ids

-- What both `retain` calls test.
abbrev pub is_kept : ℕ → List Text → Text → ℕ → Bool
is_kept now ids id seen = contains ids id && ltb (now - seen) retention_ms

unfoldable pub prune_pairings : ℕ → AppState → AppState
unfolding State.prune
prune_pairings now s = record s {
  wake_runtime = record s.wake_runtime { pairings = State.prune now s.wake_runtime.pairings };
}

unfoldable pub sweep_seen : ℕ → AppState → AppState
unfolding agent_ids target_ids put_agents put_targets
sweep_seen now s =
    let users = Map.values s.users in
    let s' = put_agents (Map.retain (is_kept now (agent_ids users)) s.wake_runtime.agents) s in
    put_targets (Map.retain (is_kept now (target_ids users)) s.wake_runtime.targets) s'

-- A failure is only logged. Each owner has the time and the turn of the call.
unfoldable pub advance_owners : (Text → ℕ × Turn) → List Text → AppState → AppState
unfolding advance_user
advance_owners turns [] s = s
advance_owners turns (owner ∷ owners) s =
    advance_owners turns owners (advance_user (turns owner).0 (turns owner).1 owner s).0

unfoldable pub cleanup : ℕ → ℕ → (Text → ℕ × Turn) → AppState → AppState
unfolding prune_pairings sweep_seen advance_owners
cleanup start now turns s =
    let swept = sweep_seen now (prune_pairings start s) in
    advance_owners turns (map (λ u. u.user_id) (Map.values swept.users)) swept

-- ===== src/Tests/Wake.antt =====
-- The theorems on the wake service, at concrete data.
use rdesk.Wake.Sweep
use rdesk.Wake.Sweep.Runtime.{AgentIsOwned, TargetIsOwned, cleanup_lem}
use rdesk.Wake.Pairing.State.{Pairing, no_pairings}
use rdesk.Server.State.{AppState}
use rdesk.Prelude.{
  ◌+◌, ◌<◌, ◌↔◌, ℕ, ◌≤◌, ◌≡◌, ◌≢◌, refl, Text, text_eq, codes, Bool, true, false, ◌||◌, Option,
  none, some, List, [], ◌∷◌, arith, length, count, All,
}
use rdesk.Map
use rdesk.Server.Accounts.Durable.{IsDurable}
use rdesk.Wake.Model.{ok, WakeAccountData, no_wake_data, WakeRequest, queued, claimed}
use rdesk.Wake.Model.Life.{IsSound}
use rdesk.Wake.Mac
use rdesk.Wake.Mac.{
  MacAddress, hex_digit, read_hex, from_str_radix16, split, push_char, parse_parts, is_group,
  check_bytes, join,
}
use rdesk.Wake.Mac.RoundTrip.{IsDevice, parse-normalized, parse_lem}
use rdesk.Wake.Devices
use rdesk.Wake.Requests
use rdesk.Wake.Requests.{
  new_request, queue_request, active_for, is_claimed, has_result, apply_result,
}
use rdesk.Wake.Requests.Once.{authorize_once}
use rdesk.Wake.Store.{Turn, update_wake}
use rdesk.Wake.Store.Laws.{update_wake-IsDurable}
use rdesk.Wake.Validity.Runs.{
  Operation, creates_agent, creates_target, creates_request, takes_job, authorizes, records_result,
  restarts, perform_all, perform, account_stays_valid,
}
use rdesk.Wake.Validity.Phases.{came_from}
use rdesk.Wake.Validity.Phases.Runs.{makes, perform_forward}
use rdesk.Tests.Data.{wake_data, with_user}

abbrev seen_at : ℕ → Text → Option ℕ
seen_at t id = some t

abbrev never : Text → Option ℕ
never id = none

-- An agent and a target are made, and the target is woken; the request is asked for twice.
abbrev wake_up : List (ℕ × Operation)
wake_up =
    (10, creates_agent (codes "agent") (codes "box") (codes "hash"))
    ∷ (
      20,
      creates_target 20 (codes "target") (codes "hash") (record {
        name = codes "pc";
        device_id = codes "pc";
        mac = codes "02:00:00:00:00:01";
        agent_id = codes "agent";
      }),
    )
    ∷ (30, creates_request 30 never (seen_at 25) (codes "r1") (codes "target"))
    ∷ (31, creates_request 31 never (seen_at 25) (codes "r2") (codes "target"))
    ∷ (40, takes_job 40 (codes "agent"))
    ∷ (50, authorizes 50 (codes "r1") (codes "agent"))
    ∷ (60, records_result 60 never (codes "r1") (codes "agent") true none)
    ∷ (70, restarts 70)
    ∷ []

account_stays_valid_example :
    let d = perform_all wake_up no_wake_data in
    (length d.agents ≤ 5)
    × (length d.targets ≤ 20)
    × (count (active_for (codes "target")) d.requests ≤ 1)
    × All IsSound d.requests
account_stays_valid_example = account_stays_valid wake_up (codes "target")

-- A request that was given to the agent.
abbrev given : WakeRequest
given = record {
  id = codes "r1";
  target_id = codes "target";
  agent_id = codes "agent";
  target_revision = 1;
  created_at_ms = 30;
  expires_at_ms = 30030;
  observe_until_ms = 120030;
  phase = claimed;
  claimed_at_ms = some 40;
  authorized_at_ms = none;
  sent_at_ms = none;
  online_at_ms = none;
  error_code = none;
}

abbrev with_request : WakeRequest → WakeAccountData
with_request r = record wake_data { requests = r ∷ [] }

abbrev allowed : WakeRequest
allowed = record given { authorized_at_ms = some 50 }

authorize_once_example :
    Requests.authorize 55 (codes "r1") (codes "agent") (with_request allowed)
    ≢ ok (with_request allowed, 2000)
unfolding Requests.authorize is_claimed text_eq
authorize_once_example =
    authorize_once 50 55 (codes "r1") (codes "agent") (codes "agent") (with_request given)
      (with_request allowed) (with_request allowed) 2000 2000 refl

abbrev waits : WakeRequest
waits = record given { phase = queued; claimed_at_ms = none }

-- The closure of the examples, and turns whose write succeeds or fails.
abbrev makes_agent : Devices.Mutation (Unit {0})
makes_agent = Devices.create_agent (codes "new") (codes "nas") (codes "hash")

abbrev turn : Bool → Turn
turn stored = record { now = 100; stored = stored; others = λ s. s }

with_user-IsDurable : IsDurable with_user
unfolding Map.values
with_user-IsDurable = record { keyed = (refl, tt); saved = refl }

update_wake-IsDurable_example :
    IsDurable (update_wake (turn true) (codes "u1") makes_agent with_user).0
update_wake-IsDurable_example =
    update_wake-IsDurable (turn true) (codes "u1") makes_agent with_user with_user-IsDurable

abbrev address : MacAddress
address = record { bytes = 2 ∷ 0 ∷ 171 ∷ 0 ∷ 0 ∷ 1 ∷ [] }

address_reads : Mac.parse (Mac.normalized address) ≡ ok address
unfolding is_group
address_reads = parse-normalized address (record {
  six = refl;
  bytes =
      (omega arith, (omega arith, (omega arith, (omega arith, (omega arith, (omega arith, tt))))));
  nonzero = refl;
  single = refl;
})

parse_lem_example : IsDevice address × (Mac.parse (Mac.normalized address) ≡ ok address)
parse_lem_example = parse_lem (Mac.normalized address) address address_reads

perform_forward_example :
    All
      (λ q.
        (came_from (with_request given).requests q
          || makes (records_result 60 never (codes "r1") (codes "agent") false none) q)
        ≡ true)
      (perform 70
        (records_result 60 never (codes "r1") (codes "agent") false none)
        (with_request given)).requests
perform_forward_example =
    perform_forward 70 (records_result 60 never (codes "r1") (codes "agent") false none)
      (with_request given)

-- One agent has been seen, an account has it, and nothing happens in between.
abbrev seen_agent : AppState
seen_agent = record with_user {
  wake_runtime = record { pairings = no_pairings; agents = (codes "agent", 50) ∷ []; targets = [] };
}

abbrev pairing : Pairing
pairing = record {
  owner = codes "u1";
  creator = codes "hash";
  name = codes "pc";
  device_id = codes "pc";
  mac = codes "02:00:00:00:00:01";
  qr_hash = [];
  desktop_hash = [];
  manual_hash = [];
  expires = 90;
  confirmed = false;
  cancelled = false;
  claimed = none;
}

cleanup_lem_example :
    let before = seen_agent.wake_runtime in
    let after = (Sweep.cleanup 60 60 (λ owner. (60, turn true)) seen_agent).wake_runtime in
    let users = Map.values seen_agent.users in
    ((Map.get (codes "agent") after.agents ≡ some 50) ↔ (
      (Map.get (codes "agent") before.agents ≡ some 50)
      × (60 < 50 + 604800000)
      × AgentIsOwned (codes "agent") users))
    × ((Map.get (codes "agent") after.targets ≡ some 50) ↔ (
        (Map.get (codes "agent") before.targets ≡ some 50)
        × (60 < 50 + 604800000)
        × TargetIsOwned (codes "agent") users))
    × ((Map.get (codes "agent") after.pairings.sessions ≡ some pairing) ↔ (
        (Map.get (codes "agent") before.pairings.sessions ≡ some pairing) × (60 < pairing.expires)))
cleanup_lem_example =
    cleanup_lem (codes "agent") 50 60 60 pairing (λ owner. (60, turn true)) seen_agent
      (λ owner s. refl)

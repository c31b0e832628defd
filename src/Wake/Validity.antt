-- ===== src/Wake/Validity.antt =====
-- What is asked of the data of every account: limits on its devices and on the active requests for a
-- target, and requests whose phases and times agree.
pub mod Devices
pub mod Requests
pub mod Pruning
pub mod Runs
pub mod Phases
use rdesk.Prelude.{
  ℕ, ◌≤◌, ◌≡◌, Text, Bool, true, List, [], ◌∷◌, arith, length, count, All, keep, take, map, ap,
  count-take-le, count-keep-le, All-keep,
}
use rdesk.Wake.Model.{
  WakeAccountData, WakeRequest, WakeResult, ok, no_wake_data, sort_newest, insert_newest, prune,
  is_recent, recover_after_restart, interrupt,
}
use rdesk.Wake.Model.Life.{IsSound, interrupt-IsSound}
use rdesk.Wake.Model.Order.{All-take, All-sort_newest}
use rdesk.Wake.Devices.{Mutation}
use rdesk.Wake.Requests.{active_for}

pub record IsValid (d : WakeAccountData) : Type 0 where
  pub few_agents : length d.agents ≤ 5
  pub few_targets : length d.targets ≤ 20
  pub single : (target_id : Text) → count (active_for target_id) d.requests ≤ 1
  pub sound : All IsSound d.requests

-- A closure that succeeds leaves valid data.
abbrev pub Keeps : {A : Type 0} → Mutation A → Type 0
Keeps {A} m = (d d' : WakeAccountData) (a : A) → m d ≡ ok (d', a) → IsValid d → IsValid d'

pub no_wake_data-IsValid : IsValid no_wake_data
no_wake_data-IsValid = record {
  few_agents = omega arith;
  few_targets = omega arith;
  single = λ t. omega arith;
  sound = tt;
}

-- ===== src/Wake/Validity/Devices.antt =====
-- crates/rdesk_server/src/wake/routes.rs: the closures on targets and agents, and valid data.
use rdesk.Prelude.{
  ℕ, ◌≤◌, ◌≡◌, Text, Option, List, arith, length, count, All, map, not, keep, length-append,
  length-keep, length-update_first, count-map-le, count-keep-le, All-map, All-keep, Bool,
}
use rdesk.Wake.Model.{WakeAccountData, WakeRequest, cancel_if, active, for_target, for_agent}
use rdesk.Wake.Model.Life.{IsSound, cancel_if-IsSound}
use rdesk.Wake.Devices
use rdesk.Wake.Devices.{cancel_agent, TargetFields, is_target, is_agent}
use rdesk.Wake.Requests.{active_for}
use rdesk.Wake.Validity.{IsValid, Keeps}

-- Cancelling ends requests, and begins none.
cancel_if-single :
    (p : WakeRequest → Bool) (t : Text) (rs : List WakeRequest)
    → count (active_for t) (map (cancel_if p) rs) ≤ count (active_for t) rs
unfolding cancel_if
cancel_if-single p t rs =
    count-map-le (active_for t) (cancel_if p) rs (λ r h. unfold active in ground arith)

map-cancel_if-IsSound :
    (p : WakeRequest → Bool) (rs : List WakeRequest)
    → All IsSound rs
    → All IsSound (map (cancel_if p) rs)
map-cancel_if-IsSound p rs = All-map IsSound (cancel_if p) rs (cancel_if-IsSound p)

-- A closure that leaves the requests alone, or cancels some.
unchanged :
    (d d' : WakeAccountData)
    → d'.requests ≡ d.requests
    → length d'.agents ≤ 5
    → length d'.targets ≤ 20
    → IsValid d
    → IsValid d'
unchanged d d' e agents targets v = record {
  few_agents = agents;
  few_targets = targets;
  single = λ t. rw e (v.single t);
  sound = rw e v.sound;
}

cancelling :
    (p : WakeRequest → Bool) (d d' : WakeAccountData)
    → d'.requests ≡ map (cancel_if p) d.requests
    → length d'.agents ≤ 5
    → length d'.targets ≤ 20
    → IsValid d
    → IsValid d'
cancelling p d d' e agents targets v = record {
  few_agents = agents;
  few_targets = targets;
  single = λ t. rw e (omega (arith, cancel_if-single p t d.requests, v.single t));
  sound = rw e (map-cancel_if-IsSound p d.requests v.sound);
}

kept :
    (q : WakeRequest → Bool) (d d' : WakeAccountData)
    → d'.requests ≡ keep q d.requests
    → length d'.agents ≤ 5
    → length d'.targets ≤ 20
    → IsValid d
    → IsValid d'
kept q d d' e agents targets v = record {
  few_agents = agents;
  few_targets = targets;
  single = λ t. rw e (omega (arith, count-keep-le (active_for t) q d.requests, v.single t));
  sound = rw e (All-keep IsSound q d.requests v.sound);
}

pub create_agent-Keeps : (id name hash : Text) → Keeps (Devices.create_agent id name hash)
unfolding Devices.create_agent
create_agent-Keeps id name hash d d' a e v =
    unchanged d d' (ground arith) (grind (arith, length-append)) (ground arith) v

pub create_target-Keeps :
    (now : ℕ) (id hash : Text) (b : TargetFields) → Keeps (Devices.create_target now id hash b)
unfolding Devices.create_target
create_target-Keeps now id hash b d d' a e v =
    unchanged d d' (ground arith) (ground arith) (grind (arith, length-append)) v

pub enroll_target-Keeps :
    (now : ℕ) (id hash : Text) (b : TargetFields) → Keeps (Devices.enroll_target now id hash b)
unfolding Devices.enroll_target
enroll_target-Keeps now id hash b d d' a e v =
    unchanged d d' (ground arith) (ground arith) (grind (arith, length-append)) v

pub update_target-Keeps : (id : Text) (b : TargetFields) → Keeps (Devices.update_target id b)
unfolding Devices.update_target
update_target-Keeps id b d d' a e v =
    cancelling (for_target id) d d' (ground arith) (ground arith)
      (grind (arith, length-update_first)) v

pub complete_target-Keeps : (id agent_id : Text) → Keeps (Devices.complete_target id agent_id)
unfolding Devices.complete_target
complete_target-Keeps id agent_id d d' a e v =
    cancelling (for_target id) d d' (ground arith) (ground arith)
      (grind (arith, length-update_first)) v

pub rotate_target-Keeps : (id hash : Text) → Keeps (Devices.rotate_target id hash)
unfolding Devices.rotate_target
rotate_target-Keeps id hash d d' a e v =
    unchanged d d' (ground arith) (ground arith) (grind (arith, length-update_first)) v

pub delete_target-Keeps : (id : Text) → Keeps (Devices.delete_target id)
unfolding Devices.delete_target
delete_target-Keeps id d d' a e v =
    kept (λ r. not (for_target id r)) d d' (ground arith) (ground arith)
      (grind (arith, length-keep)) v

pub revoke-Keeps : (id : Text) → Keeps (Devices.revoke id)
unfolding Devices.revoke
revoke-Keeps id d d' a e v =
    cancelling (for_agent id) d d' (ground arith) (grind (arith, length-keep)) (ground arith) v

pub stop_helper-Keeps :
    (id : Text) (expected_hash : Option Text) → Keeps (Devices.stop_helper id expected_hash)
unfolding Devices.stop_helper
stop_helper-Keeps id expected_hash d d' a e v =
    cancelling (for_agent id) d d' (ground arith) (grind (arith, length-update_first))
      (ground arith) v

pub enable_agent-Keeps : (id name hash : Text) → Keeps (Devices.enable_agent id name hash)
unfolding Devices.enable_agent
enable_agent-Keeps id name hash d d' a e v =
    cancelling (for_agent id) d d' (ground arith) (grind (arith, length-update_first))
      (ground arith) v

-- ===== src/Wake/Pairing/State.antt =====
-- crates/rdesk_server/src/wake/pairing.rs: the records of the enrolments, and the limits on them.
use rdesk.Prelude.{ℕ, ◌-◌, Text, Bool, ◌&&◌, not, Option, none, some, [], leb, ltb, if◌then◌else◌}
use rdesk.Map
use rdesk.Map.{Map}
use rdesk.Wake.Model.{WakeResult, ok, err, rate_limited}

abbrev pub ttl : ℕ
ttl = 300000

pub record Limit : Type 0 where
  pub since : ℕ
  pub creates : ℕ
  pub failures : ℕ

pub record Pairing : Type 0 where
  pub owner : Text
  pub creator : Text
  pub name : Text
  pub device_id : Text
  pub mac : Text
  pub qr_hash : Text
  pub desktop_hash : Text
  pub manual_hash : Text
  pub expires : ℕ
  pub confirmed : Bool
  pub cancelled : Bool
  pub claimed : Option (Text × Text)

pub record PairingRuntime : Type 0 where
  pub sessions : Map Pairing
  pub limits : Map Limit

abbrev pub no_pairings : PairingRuntime
no_pairings = record { sessions = []; limits = [] }

-- `limits.retain(..)`, which `prune` and `limit` share.
unfoldable pub fresh_limits : ℕ → PairingRuntime → PairingRuntime
fresh_limits now rt = record rt { limits = Map.retain (λ _ l. ltb (now - l.since) ttl) rt.limits }

unfoldable pub prune : ℕ → PairingRuntime → PairingRuntime
unfolding fresh_limits
prune now rt =
    fresh_limits now (record rt { sessions = Map.retain (λ _ p. ltb now p.expires) rt.sessions })

-- The entry that `limit` hands out for `owner`, which it makes if there is none.
unfoldable pub entry_of : Text → ℕ → PairingRuntime → Limit
entry_of owner now rt = elim (Map.get owner rt.limits) [
  | none ↦ record { since = now; creates = 0; failures = 0 }
  | some l ↦ l
]

-- `PairingRuntime::limit`: the runtime, and the entry or the refusal.
unfoldable pub limit : Text → ℕ → PairingRuntime → PairingRuntime × WakeResult Limit
unfolding fresh_limits entry_of
limit owner now rt =
    let rt' = fresh_limits now rt in
    if not (Map.contains_key owner rt'.limits) && leb 2000 (Map.size rt'.limits)
    then (rt', err rate_limited)
    else (
      record rt' { limits = Map.insert owner (entry_of owner now rt') rt'.limits },
      ok (entry_of owner now rt'),
    )

-- A write through the entry that `limit` handed out.
unfoldable pub set_limit : Text → Limit → PairingRuntime → PairingRuntime
set_limit owner l rt = record rt { limits = Map.insert owner l rt.limits }

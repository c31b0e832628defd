-- ===== src/Wake/Pairing/Routes/Phone.antt =====
-- crates/rdesk_server/src/wake/pairing.rs: an enrolment is made, and the phone resolves and confirms
-- it.
use rdesk.Prelude.{
  ℕ, suc, ◌+◌, Text, text_eq, Bool, true, false, ◌&&◌, ◌||◌, not, Option, none, some, List, leb,
  if◌then◌else◌, keep, length, is_some, is_none, keep_if,
}
use rdesk.Map
use rdesk.Map.{Map}
use rdesk.Server.State.{AppState}
use rdesk.Wake.Model.{
  WakeResult, ok, err, fail_if, not_found, conflict, rate_limited, invalid_device, invalid_proof,
}
use rdesk.Wake.Devices.{TargetFields}
use rdesk.Wake.Store.{Action, ◌>>=◌, ◌>>◌, pure, lift, gets, modify}
use rdesk.Wake.Callers.{account, bearer, checked_name}
use rdesk.Wake.Mac
use rdesk.Wake.Routes.{Call, invalid_device_id}
use rdesk.Wake.Pairing.State.{PairingRuntime, Pairing, Limit, prune, limit, set_limit, ttl}
use rdesk.Wake.Pairing.Proofs.{PhoneProof, Summary, summary, phone_matches, valid}

unfoldable pub put_pairings : PairingRuntime → AppState → AppState
put_pairings rt s = record s { wake_runtime = record s.wake_runtime { pairings = rt } }

-- What `create` draws: the id, the two proofs and the code to type in.
pub record Drawn : Type 0 where
  pub id : Text
  pub qr : Text
  pub desktop : Text
  pub manual : Text

-- `rt.limit(owner, now)`, as an action on the runtime that the state holds.
unfoldable pub take_limit : ℕ → Text → Action Limit
unfolding limit put_pairings
take_limit now owner s =
    let (rt, r) = limit owner now s.wake_runtime.pairings in (put_pairings rt s, r)

unfoldable pub write_limit : Text → Limit → AppState → AppState
unfolding set_limit put_pairings
write_limit owner l s = put_pairings (set_limit owner l s.wake_runtime.pairings) s

unfoldable pub put_session : Text → Pairing → AppState → AppState
unfolding put_pairings
put_session id p s =
    put_pairings
      (record s.wake_runtime.pairings {
        sessions = Map.insert id p s.wake_runtime.pairings.sessions;
      })
      s

-- The enrolments of an owner that are still open.
abbrev pub open_for : Text → PairingRuntime → List Pairing
open_for owner rt =
    keep (λ p. text_eq p.owner owner && is_none p.claimed && not p.cancelled)
      (Map.values rt.sessions)

abbrev pub is_full : Text → Limit → PairingRuntime → Bool
is_full owner l rt =
    leb 6 l.creates || leb 1000 (Map.size rt.sessions) || leb 3 (length (open_for owner rt))

-- An enrolment by id, for its owner and with a proof that fits.
abbrev pub named_session : Text → PairingRuntime → (Pairing → Bool) → Option (Text × Pairing)
named_session id rt test = elim (keep_if test (Map.get id rt.sessions)) [
  | none ↦ none
  | some p ↦ some (id, p)
]

module _ (digest : Text → Text) where
  abbrev pub new_pairing : ℕ → Text → Text → TargetFields → Drawn → Pairing
  new_pairing now owner token fields drawn = record {
    owner = owner;
    creator = digest token;
    name = fields.name;
    device_id = fields.device_id;
    mac = fields.mac;
    qr_hash = digest drawn.qr;
    desktop_hash = digest drawn.desktop;
    manual_hash = digest drawn.manual;
    expires = now + ttl;
    confirmed = false;
    cancelled = false;
    claimed = none;
  }

  unfoldable pub create : Call → Drawn → TargetFields → Action Drawn
  unfolding take_limit write_limit put_session put_pairings
  create c drawn b = do
    u ← account c.now c.header
    name ← lift (checked_name b.name)
    lift (fail_if (invalid_device_id b.device_id) invalid_device)
    mac ← lift (Mac.parse b.mac)
    let fields : TargetFields = record b { name = name; mac = Mac.normalized mac }
    modify c.turn.others
    modify (λ s. put_pairings (prune c.turn.now s.wake_runtime.pairings) s)
    l ← take_limit c.turn.now u.user_id
    rt ← gets (λ s. s.wake_runtime.pairings)
    lift (fail_if (is_full u.user_id l rt) rate_limited)
    token ← lift (bearer c.header)
    s ← gets (λ s. s)
    lift (valid digest c.turn.now u.user_id (new_pairing c.turn.now u.user_id token fields drawn) s)
    l' ← take_limit c.turn.now u.user_id
    modify (write_limit u.user_id (record l' { creates = suc l'.creates }))
    modify (put_session drawn.id (new_pairing c.turn.now u.user_id token fields drawn))
    pure drawn

  abbrev pub fits : Text → PhoneProof → Pairing → Bool
  fits owner b p = text_eq p.owner owner && phone_matches digest p b.qr_proof b.manual_code

  -- The enrolment that a phone's proof belongs to.
  unfoldable pub found_session :
      Text → Option Text → PhoneProof → PairingRuntime → Option (Text × Pairing)
  found_session owner (some id) b rt = named_session id rt (fits owner b)
  found_session owner none b rt =
      if is_none b.id && is_none b.qr_proof
      then Map.find_entry (λ _ p. fits owner b p) rt.sessions
      else none

  unfoldable pub checked_session :
      ℕ → Text → Option (Text × Pairing) → AppState → WakeResult (Text × Pairing)
  checked_session now owner none s = err not_found
  checked_session now owner (some (id, p)) s = elim (valid digest now owner p s) [
    | ok _ ↦ ok (id, p)
    | err e ↦ err e
  ]

  -- A failure is counted against the owner.
  unfoldable pub settle : ℕ → Text → WakeResult (Text × Pairing) → Action (Text × Pairing)
  unfolding take_limit write_limit
  settle now owner (ok found) = pure found
  settle now owner (err e) = do
    l ← take_limit now owner
    modify (write_limit owner (record l { failures = suc l.failures }))
    lift (err e)

  unfoldable pub phone_session : ℕ → Text → Option Text → PhoneProof → Action (Text × Pairing)
  unfolding take_limit found_session checked_session settle
  phone_session now owner id b = do
    l ← take_limit now owner
    lift (fail_if (leb 20 l.failures) rate_limited)
    rt ← gets (λ s. s.wake_runtime.pairings)
    found ← gets (checked_session now owner (found_session owner id b rt))
    settle now owner found

  -- A code has the id with a QR proof, or neither with a typed code.
  abbrev pub well_shaped : PhoneProof → Bool
  well_shaped b =
      (is_some b.id && is_some b.qr_proof && is_none b.manual_code)
      || (is_none b.id && is_none b.qr_proof && is_some b.manual_code)

  unfoldable pub resolve : Call → PhoneProof → Action Summary
  unfolding phone_session
  resolve c b = do
    u ← account c.now c.header
    modify c.turn.others
    lift (fail_if (not (well_shaped b)) invalid_proof)
    found ← phone_session c.turn.now u.user_id b.id b
    pure (summary c.turn.now found.0 found.1)

  unfoldable pub confirm : Call → Text → PhoneProof → Action Summary
  unfolding phone_session put_session
  confirm c id b = do
    u ← account c.now c.header
    lift (fail_if (is_some b.id) invalid_proof)
    modify c.turn.others
    found ← phone_session c.turn.now u.user_id (some id) b
    let p : Pairing = found.1
    lift (fail_if (p.confirmed || is_some p.claimed) conflict)
    modify (put_session id (record p { confirmed = true }))
    pure (summary c.turn.now id (record p { confirmed = true }))

-- ===== src/Wake/Pairing/Routes/Desktop.antt =====
-- crates/rdesk_server/src/wake/pairing.rs: the computer claims the enrolment, or gives it up, and the
-- owner completes its target.
use rdesk.Prelude.{
  ℕ, Text, text_eq, Bool, true, false, ◌&&◌, not, none, some, [], if◌then◌else◌, any, is_some,
  is_none, keep_if, find,
}
use rdesk.Map
use rdesk.Map.{Map}
use rdesk.Server.State.{AppState}
use rdesk.Wake.Model.{
  WakeResult, ok, err, fail_if, not_found, conflict, invalid_token, setup_incomplete,
}
use rdesk.Wake.Devices.{TargetFields}
use rdesk.Wake.Devices
use rdesk.Wake.Store.{Action, ◌>>=◌, ◌>>◌, pure, lift, gets, modify, locked_update, is_user}
use rdesk.Wake.Callers.{account, bearer}
use rdesk.Wake.Routes.{Call}
use rdesk.Wake.Pairing.State.{Pairing}
use rdesk.Wake.Pairing.Proofs.{Summary, summary, valid, valid_proof, equal}
use rdesk.Wake.Pairing.Routes.Phone.{put_pairings, put_session}

abbrev pub is_ok : {A : Type 0} → WakeResult A → Bool
is_ok (ok a) = true
is_ok (err e) = false

-- What the caller's check inside a closure of `update_wake` does to the state: it is run if the user
-- is found and the closure gets to it.
unfoldable pub recheck : Call → Text → Bool → AppState → AppState
recheck c owner reached s =
    if reached && is_some (find (is_user owner) (Map.values s.users))
    then (account c.turn.now c.header s).0
    else s

module _ (digest : Text → Text) where
  unfoldable pub desktop_session : ℕ → Text → Text → Text → AppState → WakeResult Pairing
  desktop_session now owner id proof s =
      elim (keep_if
        (λ p. text_eq p.owner owner && valid_proof proof && equal (digest proof) p.desktop_hash)
        (Map.get id s.wake_runtime.pairings.sessions)) [
          | none ↦ err not_found
          | some p ↦ elim (valid digest now owner p s) [ ok _ ↦ ok p | err e ↦ err e ]
        ]

  unfoldable pub status : Call → Text → Text → Action Summary
  unfolding desktop_session
  status c id proof = do
    u ← account c.now c.header
    modify c.turn.others
    s ← gets (λ s. s)
    p ← lift (desktop_session c.turn.now u.user_id id proof s)
    pure (summary c.turn.now id p)

  -- `claim` for an enrolment that has been claimed: the same token must come again, and its target
  -- still be there.
  unfoldable pub reclaim : Text → Text → Text → Text → Action Text
  reclaim owner target_id old_hash hash s =
      if equal old_hash hash
      then elim (Map.get owner s.users) [
        | none ↦ (s, err not_found)
        | some user ↦
            if any (λ t. text_eq t.id target_id && equal t.token_hash hash) user.wake.targets
            then (s, ok target_id)
            else (s, err conflict)
      ]
      else (s, err conflict)

  -- The closure of `claim`, which checks the enrolment and the caller again under the lock.
  abbrev pub enroll : Call → AppState → Text → Text → Text → Pairing → Devices.Mutation (Unit {0})
  enroll c s owner target_id hash p d = elim (valid digest c.turn.now owner p s) [
    | err e ↦ err e
    | ok _ ↦ elim ((account c.turn.now c.header s).1) [
      | err e ↦ err e
      | ok _ ↦
          Devices.enroll_target c.turn.now target_id hash
            (record { name = p.name; device_id = p.device_id; mac = p.mac; agent_id = [] }) d
    ]
  ]

  -- `claim` for an enrolment that has not been claimed yet.
  unfoldable pub claim_new : Call → Text → Text → Text → Text → Pairing → Action Text
  unfolding put_session locked_update recheck
  claim_new c owner id target_id hash p = do
    modify c.turn.others
    s ← gets (λ s. s)
    modify (recheck c owner (is_ok (valid digest c.turn.now owner p s)))
    locked_update c.turn owner (enroll c s owner target_id hash p)
    modify (put_session id (record p { claimed = some (target_id, hash) }))
    pure target_id

  unfoldable pub claim : Call → (AppState → AppState) → Text → Text → Text → Text → Action Text
  unfolding desktop_session reclaim claim_new
  claim c before id target_id proof enrollment_token = do
    u ← account c.now c.header
    lift (fail_if (not (valid_proof enrollment_token)) invalid_token)
    modify before
    s ← gets (λ s. s)
    p ← lift (desktop_session c.now u.user_id id proof s)
    lift (fail_if (not p.confirmed) conflict)
    elim p.claimed [
      | some (claimed_id, old_hash) ↦
          reclaim u.user_id claimed_id old_hash (digest enrollment_token)
      | none ↦ claim_new c u.user_id id target_id (digest enrollment_token) p
    ]

  unfoldable pub cancel : Call → Text → Text → Action (Unit {0})
  unfolding desktop_session put_session
  cancel c id proof = do
    u ← account c.now c.header
    modify c.turn.others
    s ← gets (λ s. s)
    p ← lift (desktop_session c.turn.now u.user_id id proof s)
    lift (fail_if (is_some p.claimed) conflict)
    modify (put_session id (record p { cancelled = true }))

  abbrev pub cancel_of : Text → Text → Pairing → Pairing
  cancel_of owner creator p =
      if text_eq p.owner owner && equal p.creator creator && is_none p.claimed
      then record p { cancelled = true }
      else p

  unfoldable pub cancel_all : Call → Action (Unit {0})
  unfolding put_pairings
  cancel_all c = do
    u ← account c.now c.header
    token ← lift (bearer c.header)
    modify c.turn.others
    modify (λ s.
        put_pairings
          (record s.wake_runtime.pairings {
            sessions =
                Map.map_values (cancel_of u.user_id (digest token))
                  s.wake_runtime.pairings.sessions;
          })
          s)

unfoldable pub complete : Call → Text → Text → Bool → Action (Unit {0})
unfolding recheck locked_update
complete c id agent_id bios_confirmed = do
  u ← account c.now c.header
  lift (fail_if (not bios_confirmed) setup_incomplete)
  modify c.turn.others
  s ← gets (λ s. s)
  modify (recheck c u.user_id true)
  locked_update c.turn u.user_id (λ d. elim ((account c.turn.now c.header s).1) [
    | err e ↦ err e
    | ok _ ↦ Devices.complete_target id agent_id d
  ])

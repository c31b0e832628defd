-- ===== src/Wake/Sweep/Runtime.antt =====
-- crates/rdesk_server/src/wake/routes.rs: what `cleanup` leaves of the times at which the helpers
-- were last seen, and of the pairings.
use rdesk.Prelude.{
  ℕ, ◌+◌, ◌<◌, ◌≡◌, ◌↔◌, refl, ap, ◌∙◌, Bool, true, ◌||◌, Option, none, some, List, [], ◌∷◌, arith,
  Text, text_eq, text_eq_iff, ltb, ltb→lt, lt→ltb, Bool-cases, Option-cases, inl, inr, find, any,
  any_iff, any-append, Any, keep_if, map,
}
use rdesk.Map
use rdesk.Map.Laws.{get-retain}
use rdesk.Server.State.{AppState, UserRecord}
use rdesk.Server.Accounts.{write_user_snapshot}
use rdesk.Wake.Model.{WakeResult, ok, err, WakeAccountData, WakeAgent, WakeTarget}
use rdesk.Wake.Devices.{Mutation}
use rdesk.Wake.Requests.{advance_all}
use rdesk.Wake.Pairing.State
use rdesk.Wake.Pairing.State.{Pairing}
use rdesk.Wake.Store.{Turn, is_user, commit_wake, locked_update, update_wake}
use rdesk.Wake.Callers.{put_agents, put_targets, target_seen}
use rdesk.Wake.Routes.{advance_user}
use rdesk.Wake.Sweep.{
  agent_ids, target_ids, contains, is_kept, prune_pairings, sweep_seen, advance_owners, cleanup,
}

-- What other requests do in the meantime leaves the times and the pairings alone.
abbrev pub IsAlone : Turn → Type 0
IsAlone turn = (s : AppState) → (turn.others s).wake_runtime ≡ s.wake_runtime

commit-runtime :
    {A : Type 0} (turn : Turn) (user_id : Text) (user : UserRecord)
    (r : WakeResult (WakeAccountData × A)) (s : AppState)
    → (commit_wake turn user_id user r s).0.wake_runtime ≡ s.wake_runtime
unfolding commit_wake write_user_snapshot
commit-runtime turn user_id user (err e) s = refl
commit-runtime turn user_id user (ok (d, value)) s = elim (Bool-cases turn.stored) [
  | inl e ↦ rw e refl
  | inr e ↦ rw e refl
]

update-runtime :
    {A : Type 0} (turn : Turn) (user_id : Text) (m : Mutation A) (s : AppState)
    → IsAlone turn
    → (update_wake turn user_id m s).0.wake_runtime ≡ s.wake_runtime
unfolding update_wake locked_update
update-runtime turn user_id m s alone =
    let t = turn.others s in
    elim (Option-cases (find (is_user user_id) (Map.values t.users))) [
      | inl n ↦ ground (arith, alone s)
      | inr (user, f) ↦ ground (arith, alone s, commit-runtime turn user_id user (m user.wake) t)
    ]

advance-runtime :
    (now : ℕ) (turn : Turn) (owner : Text) (s : AppState)
    → IsAlone turn
    → (advance_user now turn owner s).0.wake_runtime ≡ s.wake_runtime
unfolding advance_user
advance-runtime now turn owner s alone =
    let beats = target_seen s in
    elim (Option-cases (Map.get owner s.users)) [
      | inl n ↦ ground arith
      | inr (user, g) ↦ ground (arith, update-runtime turn owner (advance_all now beats) s alone)
    ]

owners-runtime :
    (turns : Text → ℕ × Turn) (owners : List Text) (s : AppState)
    → ((owner : Text) → IsAlone (turns owner).1)
    → (advance_owners turns owners s).wake_runtime ≡ s.wake_runtime
unfolding advance_owners
owners-runtime turns [] s alone = refl
owners-runtime turns (owner ∷ owners) s alone =
    owners-runtime turns owners (advance_user (turns owner).0 (turns owner).1 owner s).0 alone
    ∙ advance-runtime (turns owner).0 (turns owner).1 owner s (alone owner)

-- Some account has an agent, or a target, of that identifier.
abbrev pub AgentIsOwned : Text → List UserRecord → Type 0
AgentIsOwned id = Any (λ (u : UserRecord). Any (λ (a : WakeAgent). a.id ≡ id) u.wake.agents)

abbrev pub TargetIsOwned : Text → List UserRecord → Type 0
TargetIsOwned id = Any (λ (u : UserRecord). Any (λ (t : WakeTarget). t.id ≡ id) u.wake.targets)

contains-map :
    {A : Type 0} (id_of : A → Text) (id : Text) (xs : List A)
    → contains (map id_of xs) id ≡ any (λ x. text_eq (id_of x) id) xs
contains-map id_of id [] = refl
contains-map id_of id (x ∷ xs) = ap (λ b. text_eq (id_of x) id || b) (contains-map id_of id xs)

agents_split :
    (id : Text) (users : List UserRecord)
    → contains (agent_ids users) id
      ≡ any (λ (u : UserRecord). any (λ (a : WakeAgent). text_eq a.id id) u.wake.agents) users
unfolding agent_ids
agents_split id [] = refl
agents_split id (u ∷ users) =
    any-append (λ i. text_eq i id) (map (λ (a : WakeAgent). a.id) u.wake.agents) (agent_ids users)
    ∙ rw (contains-map (λ (a : WakeAgent). a.id) id u.wake.agents, agents_split id users) refl

targets_split :
    (id : Text) (users : List UserRecord)
    → contains (target_ids users) id
      ≡ any (λ (u : UserRecord). any (λ (t : WakeTarget). text_eq t.id id) u.wake.targets) users
unfolding target_ids
targets_split id [] = refl
targets_split id (u ∷ users) =
    any-append (λ i. text_eq i id) (map (λ (t : WakeTarget). t.id) u.wake.targets)
      (target_ids users)
    ∙ rw (contains-map (λ (t : WakeTarget). t.id) id u.wake.targets, targets_split id users) refl

agents_owned :
    (id : Text) (users : List UserRecord)
    → (contains (agent_ids users) id ≡ true) ↔ AgentIsOwned id users
agents_owned id users = rw (agents_split id users) (
    any_iff _ (λ (u : UserRecord). any (λ (a : WakeAgent). text_eq a.id id) u.wake.agents)
      (λ u. any_iff _ (λ (a : WakeAgent). text_eq a.id id) (λ a. text_eq_iff a.id id) u.wake.agents)
      users)

targets_owned :
    (id : Text) (users : List UserRecord)
    → (contains (target_ids users) id ≡ true) ↔ TargetIsOwned id users
targets_owned id users = rw (targets_split id users) (
    any_iff _ (λ (u : UserRecord). any (λ (t : WakeTarget). text_eq t.id id) u.wake.targets)
      (λ u.
        any_iff _ (λ (t : WakeTarget). text_eq t.id id) (λ t. text_eq_iff t.id id) u.wake.targets)
      users)

keep_if_iff {ℓ} :
    {A : Type ℓ} (p : A → Bool) (o : Option A) (a : A)
    → (keep_if p o ≡ some a) ↔ ((o ≡ some a) × (p a ≡ true))
keep_if_iff p none a = (λ e. absurd (ground arith), λ e. absurd (ground arith))
keep_if_iff p (some b) a = (λ e. ground arith, λ e. ground arith)

-- A time that both tests keep, in terms of what makes it so.
seen_iff :
    {Owned : Type 0} (now : ℕ) (ids : List Text) (id : Text) (o : Option ℕ) (seen : ℕ)
    → (contains ids id ≡ true) ↔ Owned
    → (keep_if (is_kept now ids id) o ≡ some seen)
      ↔ ((o ≡ some seen) × (now < seen + 604800000) × Owned)
seen_iff now ids id o seen owned =
    let kept = keep_if_iff (is_kept now ids id) o seen in
    (
      λ e. let (found, p) = kept.0 e in (found, ground arith, owned.0 (ground arith)),
      λ e. let (found, recent, has) = e in let held = owned.1 has in kept.1 (found, ground arith),
    )

-- If no other request touches the times and the pairings while the accounts are advanced, then after
-- the cleanup: an agent has a time of being seen exactly if it had it before, it is less than seven
-- days ago, and some account has an agent of that identifier; likewise a target; and a pairing is
-- there exactly if it was there and has not expired when the cleanup starts.
pub cleanup_lem :
    (id : Text) (seen start now : ℕ) (p : Pairing) (turns : Text → ℕ × Turn) (s : AppState)
    → ((owner : Text) → IsAlone (turns owner).1)
    → let before = s.wake_runtime in
      let after = (cleanup start now turns s).wake_runtime in
      let users = Map.values s.users in
      ((Map.get id after.agents ≡ some seen) ↔ (
        (Map.get id before.agents ≡ some seen) × (now < seen + 604800000) × AgentIsOwned id users))
      × ((Map.get id after.targets ≡ some seen) ↔ (
          (Map.get id before.targets ≡ some seen)
          × (now < seen + 604800000)
          × TargetIsOwned id users))
      × ((Map.get id after.pairings.sessions ≡ some p)
          ↔ ((Map.get id before.pairings.sessions ≡ some p) × (start < p.expires)))
unfolding cleanup prune_pairings sweep_seen put_agents put_targets State.prune
cleanup_lem id seen start now p turns s alone =
    let swept = sweep_seen now (prune_pairings start s) in
    let same = owners-runtime turns (map (λ u. u.user_id) (Map.values swept.users)) swept alone in
    let before = s.wake_runtime in
    let users = Map.values s.users in
    let agents = get-retain id (is_kept now (agent_ids users)) before.agents in
    let targets = get-retain id (is_kept now (target_ids users)) before.targets in
    let unexpired = λ (q : Pairing). ltb start q.expires in
    let sessions = get-retain id (λ _. unexpired) before.pairings.sessions in
    let expiry = keep_if_iff unexpired (Map.get id before.pairings.sessions) p in
    (
      rw (same, agents)
          (seen_iff now (agent_ids users) id (Map.get id before.agents) seen
            (agents_owned id users)),
      rw (same, targets)
          (seen_iff now (target_ids users) id (Map.get id before.targets) seen
            (targets_owned id users)),
      rw (same, sessions)
          (
            (λ e. ((expiry.0 e).0, ltb→lt start p.expires (expiry.0 e).1)),
            (λ e. expiry.1 (e.0, lt→ltb start p.expires e.1)),
          ),
    )

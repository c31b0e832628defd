-- ===== src/Server/Cleanup/Exact.antt =====
-- What the cleanup takes away, and what it leaves.
use rdesk.Prelude.{
  ℕ, ◌≡◌, refl, ◌∙◌, Text, text_eq, true, false, none, some, List, [], ◌∷◌, arith, any,
  if◌then◌else◌, Bool-cases, inl, inr, Option-cases,
}
use rdesk.Map
use rdesk.Map.{Map}
use rdesk.Map.Laws.{get-remove}
use rdesk.Server.State.{AppState, PreviewRegistration, ScreenDemand, PendingCommand, preview_ttl_ms}
use rdesk.Server.Screen.{
  prune_screen_demand, put_demand, clear_demand_frames, disconnect_viewers_for_device,
}
use rdesk.Server.Commands.{expire_stale_device_commands, drop_stale, answer, put_queue}
use rdesk.Server.Previews.{remove_preview_state}
use rdesk.Server.Cleanup.{
  is_stale, stale_previews, remove_previews, prune_demands, expire_queues, sweep_presence,
  sweep_auth_sessions, sweep_files, cleanup_expired,
}

-- The tables of accounts and files are the same in two states.
abbrev pub SameTables : AppState → AppState → Type 0
SameTables s t =
    (t.account_presence ≡ s.account_presence)
    × (t.auth_sessions ≡ s.auth_sessions)
    × (t.file_store ≡ s.file_store)

follow : (s t u : AppState) → SameTables s t → SameTables t u → SameTables s u
follow s t u a b = (b.0 ∙ a.0, b.1 ∙ a.1, b.2 ∙ a.2)

prune_demand-SameTables :
    (now : ℕ) (k : Text) (d : ScreenDemand) (s : AppState)
    → SameTables s (prune_screen_demand now k d s).0
      × ((prune_screen_demand now k d s).0.previews ≡ s.previews)
unfolding prune_screen_demand clear_demand_frames
prune_demand-SameTables now k d s = ground arith

prune_demands-SameTables :
    (now : ℕ) (m : Map ScreenDemand) (s : AppState)
    → SameTables s (prune_demands now m s) × ((prune_demands now m s).previews ≡ s.previews)
unfolding prune_demands put_demand
prune_demands-SameTables now [] s = ((refl, refl, refl), refl)
prune_demands-SameTables now ((k, d) ∷ rest) s =
    let pruned = prune_screen_demand now k d s in
    let first = prune_demand-SameTables now k d s in
    let later = prune_demands-SameTables now rest (put_demand k pruned.1 pruned.0) in
    (
      follow s pruned.0 (prune_demands now rest (put_demand k pruned.1 pruned.0)) first.0 later.0,
      later.1 ∙ first.1,
    )

drop_stale-SameTables :
    (now : ℕ) (queue : List PendingCommand) (s : AppState)
    → SameTables s (drop_stale now queue s).1 × ((drop_stale now queue s).1.previews ≡ s.previews)
unfolding drop_stale answer
drop_stale-SameTables now [] s = ((refl, refl, refl), refl)
drop_stale-SameTables now (c ∷ queue) s = ground (
  arith,
  drop_stale-SameTables now queue (answer c.command_id (record { ok = false; text = none }) s),
)

expire-SameTables :
    (now : ℕ) (k : Text) (s : AppState)
    → SameTables s (expire_stale_device_commands now k s)
      × ((expire_stale_device_commands now k s).previews ≡ s.previews)
unfolding expire_stale_device_commands put_queue
expire-SameTables now k s = elim (Option-cases (Map.get k s.command_queues)) [
  | inl missing ↦ ground arith
  | inr (queue, found) ↦ ground (arith, drop_stale-SameTables now queue s)
]

expire_queues-SameTables :
    (now : ℕ) (ks : List Text) (s : AppState)
    → SameTables s (expire_queues now ks s) × ((expire_queues now ks s).previews ≡ s.previews)
unfolding expire_queues
expire_queues-SameTables now [] s = ((refl, refl, refl), refl)
expire_queues-SameTables now (k ∷ ks) s =
    let first = expire-SameTables now k s in
    let later = expire_queues-SameTables now ks (expire_stale_device_commands now k s) in
    (
      follow s (expire_stale_device_commands now k s)
          (expire_queues now ks (expire_stale_device_commands now k s)) first.0 later.0,
      later.1 ∙ first.1,
    )

removed-previews :
    (k : Text) (ks : List Text) (s : AppState)
    → Map.get k (remove_previews ks s).previews
      ≡ (if any (λ i. text_eq i k) ks then none else Map.get k s.previews)
unfolding remove_previews remove_preview_state disconnect_viewers_for_device put_demand
removed-previews k [] s = refl
removed-previews k (i ∷ ks) s =
    ground (arith, removed-previews k ks (remove_preview_state i s), get-remove k i s.previews)

stale_listed :
    (now : ℕ) (k : Text) (r : PreviewRegistration) (m : Map PreviewRegistration)
    → Map.get k m ≡ some r
    → is_stale now r.updated_at_ms preview_ttl_ms ≡ true
    → any (λ i. text_eq i k) (stale_previews now m) ≡ true
unfolding stale_previews Map.get
stale_listed now k r [] e h = absurd (ground arith)
stale_listed now k r ((i, q) ∷ m) e h = ground (arith, stale_listed now k r m)

-- A registration that is there after the cleanup was there before, and its time has not run out.
pub cleanup_expired-previews :
    (now : ℕ) (k : Text) (r : PreviewRegistration) (s : AppState)
    → Map.get k (cleanup_expired now s).previews ≡ some r
    → (Map.get k s.previews ≡ some r) × (is_stale now r.updated_at_ms preview_ttl_ms ≡ false)
unfolding cleanup_expired sweep_presence sweep_auth_sessions sweep_files
cleanup_expired-previews now k r s e =
    let s1 = sweep_presence now (remove_previews (stale_previews now s.previews) s) in
    let s3 = sweep_auth_sessions now (prune_demands now s1.screen_demands s1) in
    let pruned = prune_demands-SameTables now s1.screen_demands s1 in
    let expired = expire_queues-SameTables now (Map.keys s3.command_queues) s3 in
    let left =
      rw (expired.1, pruned.1, removed-previews k (stale_previews now s.previews) s) at e in
    let there : Map.get k s.previews ≡ some r = ground arith in
    (
      there,
      elim (Bool-cases (is_stale now r.updated_at_ms preview_ttl_ms)) [
        | inl stale ↦ absurd (ground (arith, stale_listed now k r s.previews there stale))
        | inr fresh ↦ fresh
      ],
    )

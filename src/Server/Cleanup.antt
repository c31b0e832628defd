-- ===== src/Server/Cleanup.antt =====
-- crates/rdesk_server/src/main.rs: `cleanup_expired`, which runs every fifteen seconds. Where the
-- source collects the keys of the stale entries and then removes each, the model retains the rest.
pub mod Exact
use rdesk.Prelude.{ℕ, ◌-◌, Text, Bool, not, List, [], ◌∷◌, ltb, if◌then◌else◌}
use rdesk.Map
use rdesk.Map.{Map}
use rdesk.Server.State.{
  AppState, PreviewRegistration, ScreenDemand, account_presence_ttl_ms, auth_session_ttl_ms,
  preview_ttl_ms, viewer_session_ttl_ms,
}
use rdesk.Server.Screen.{prune_screen_demand, put_demand}
use rdesk.Server.Commands.{expire_stale_device_commands}
use rdesk.Server.Previews.{remove_preview_state}

abbrev pub is_stale : ℕ → ℕ → ℕ → Bool
is_stale now seen ttl = ltb ttl (now - seen)

-- The keys of the registrations that have not been renewed in time.
unfoldable pub stale_previews : ℕ → Map PreviewRegistration → List Text
stale_previews now [] = []
stale_previews now ((k, r) ∷ rest) =
    if is_stale now r.updated_at_ms preview_ttl_ms
    then k ∷ stale_previews now rest
    else stale_previews now rest

unfoldable pub remove_previews : List Text → AppState → AppState
unfolding remove_preview_state
remove_previews [] s = s
remove_previews (device_id ∷ rest) s = remove_previews rest (remove_preview_state device_id s)

-- `screen_demands.iter_mut()`, over the entries as the loop meets them.
unfoldable pub prune_demands : ℕ → Map ScreenDemand → AppState → AppState
unfolding put_demand
prune_demands now [] s = s
prune_demands now ((device_id, demand) ∷ rest) s =
    let (s', d) = prune_screen_demand now device_id demand s in
    prune_demands now rest (put_demand device_id d s')

unfoldable pub expire_queues : ℕ → List Text → AppState → AppState
expire_queues now [] s = s
expire_queues now (device_id ∷ rest) s =
    expire_queues now rest (expire_stale_device_commands now device_id s)

-- The tables that are swept entry by entry.
unfoldable pub sweep_presence : ℕ → AppState → AppState
sweep_presence now s = record s {
  account_presence =
      Map.retain (λ _ p. not (is_stale now p.updated_at_ms account_presence_ttl_ms))
        s.account_presence;
  viewer_sessions =
      Map.retain (λ _ v. not (is_stale now v.last_seen_ms viewer_session_ttl_ms)) s.viewer_sessions;
}

unfoldable pub sweep_auth_sessions : ℕ → AppState → AppState
sweep_auth_sessions now s = record s {
  auth_sessions =
      Map.retain (λ _ a. not (is_stale now a.last_seen_ms auth_session_ttl_ms)) s.auth_sessions;
}

unfoldable pub sweep_files : ℕ → AppState → AppState
sweep_files now s = record s {
  file_store = Map.retain (λ _ b. not (is_stale now b.created_at_ms 300000)) s.file_store;
}

unfoldable pub cleanup_expired : ℕ → AppState → AppState
unfolding stale_previews remove_previews prune_demands expire_queues sweep_presence
    sweep_auth_sessions sweep_files
cleanup_expired now s =
    let s1 = sweep_presence now (remove_previews (stale_previews now s.previews) s) in
    let s2 = sweep_auth_sessions now (prune_demands now s1.screen_demands s1) in
    sweep_files now (expire_queues now (Map.keys s2.command_queues) s2)

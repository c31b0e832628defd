-- ===== src/Server/Previews/Admission.antt =====
-- crates/rdesk_server/src/main.rs, `resolve_preview`: who is let in to look at a host.
use rdesk.Prelude.{ℕ, ◌≡◌, Text, Bool, true, false, ◌||◌, none, some}
use rdesk.Map
use rdesk.Server.State.{AppState, PreviewRegistration}
use rdesk.Server.Previews.{
  ResolvePreviewRequest, Resolved, answered, asking, password_ok, trusted_ok, same_account,
}

-- Whether a caller is let in at once.
abbrev pub lets_in : Resolved → Bool
lets_in (answered response) = response.authorized
lets_in (asking r) = false

abbrev granted : ℕ → ResolvePreviewRequest → AppState → PreviewRegistration → Bool
granted now request s r =
    password_ok request r
    || (trusted_ok request r || (same_account now r.user_id request.auth_token s).1)

-- What the answer and the viewer's session say of a caller who is let in, and of one who is not.
abbrev pub WasLetIn : ℕ → Text → Text → AppState × Resolved → Type 0
WasLetIn now viewer_token device_id t =
    (lets_in t.1 ≡ true)
    × (Map.get viewer_token t.0.viewer_sessions
        ≡ some (record { device_id = device_id; last_seen_ms = now }))

abbrev pub WasKeptOut : Text → AppState × Resolved → Type 0
WasKeptOut viewer_token t =
    (lets_in t.1 ≡ false) × (Map.get viewer_token t.0.viewer_sessions ≡ none)

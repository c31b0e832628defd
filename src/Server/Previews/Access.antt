-- ===== src/Server/Previews/Access.antt =====
-- crates/rdesk_server/src/main.rs: what a registration keeps, and what a removal and an admission do
-- to the tokens of hosts and viewers.
use rdesk.Prelude.{
  ℕ, ◌≡◌, refl, Text, text_eq, text_eq_iff, text_eq_refl, true, false, not, Option, none, some,
  arith, Option-cases, inl, inr,
}
use rdesk.Map
use rdesk.Map.Laws.{get-insert, get-remove, get-retain}
use rdesk.Server.State.{AppState, PreviewRegistration, success, ViewerSession}
use rdesk.Server.Sessions.{
  validate_viewer, validate_host, validate_auth_token, validate_auth_session, or_else,
}
use rdesk.Server.Screen.{disconnect_viewers_for_device, put_demand}
use rdesk.Server.Previews.{
  RegisterPreviewRequest, host_token_for, register_preview, enter_preview, registration, bound_user,
  remove_preview_state, same_account, OriginHeaders, admit_viewer,
}

pub validate_auth-previews :
    (now : ℕ) (token : Option Text) (s : AppState)
    → (validate_auth_token now token s).0.previews ≡ s.previews
unfolding validate_auth_token validate_auth_session
validate_auth-previews now none s = refl
validate_auth-previews now (some token) s = ground arith

host_token_kept :
    (now : ℕ) (fresh_token : Text) (request : RegisterPreviewRequest) (entry : PreviewRegistration)
    (s : AppState)
    → Map.get request.device_id s.previews ≡ some entry
    → (token : Text) → (host_token_for now fresh_token request s).1 ≡ some token
    → token ≡ entry.host_token
unfolding host_token_for
host_token_kept now fresh_token request entry s found token e = ground arith

entered_token :
    (now : ℕ) (request : RegisterPreviewRequest) (existing : Option PreviewRegistration)
    (granted : Option Text) (s : AppState) (token : Text)
    → (enter_preview now request existing granted s).1 ≡ success token
    → (granted ≡ some token)
      × (validate_host now request.device_id token (enter_preview now request existing granted s).0
          ≡ true)
unfolding enter_preview validate_host
entered_token now request existing none s token e = cc
entered_token now request existing (some host_token) s token e =
    let s' = validate_auth_token now request.auth_token s in
    let entry = registration now (or_else s'.1 (bound_user existing)) host_token request in
    (
      ground arith,
      ground (
        arith,
        get-insert request.device_id request.device_id entry s'.0.previews,
        text_eq_refl request.device_id,
        text_eq_iff host_token token,
      ),
    )

-- A registration that succeeds for a device that is there already keeps its host token, and with
-- that token the host is valid afterwards.
pub register_keeps_token :
    (now : ℕ) (fresh_token token : Text) (request : RegisterPreviewRequest)
    (entry : PreviewRegistration) (s : AppState)
    → Map.get request.device_id s.previews ≡ some entry
    → (register_preview now fresh_token request s).1 ≡ success token
    → (token ≡ entry.host_token)
      × (validate_host now request.device_id entry.host_token
            (register_preview now fresh_token request s).0
          ≡ true)
unfolding register_preview
register_keeps_token now fresh_token token request entry s found e =
    let chosen = host_token_for now fresh_token request s in
    let same = host_token_kept now fresh_token request entry s found in
    let entered =
      entered_token now request (Map.get request.device_id s.previews) chosen.1 chosen.0 token e in
    let kept = same token entered.0 in (kept, rw (← kept) entered.1)

-- After all viewers of a device are disconnected none of its tokens is valid, and each token is
-- worth for another device what it was before.
pub disconnect_revokes :
    (now : ℕ) (device_id other token : Text) (s : AppState)
    → text_eq device_id other ≡ false
    → let t = disconnect_viewers_for_device device_id s in
      ((validate_viewer now device_id token t).1 ≡ false)
      × ((validate_viewer now other token t).1 ≡ (validate_viewer now other token s).1)
unfolding disconnect_viewers_for_device validate_viewer put_demand
disconnect_revokes now device_id other token s ne =
    let kept =
      get-retain token (λ _ (v : ViewerSession). not (text_eq v.device_id device_id))
        s.viewer_sessions in
    (
      ground (arith, kept),
      elim (Option-cases (Map.get token s.viewer_sessions)) [
        | inl missing ↦ ground (arith, kept)
        | inr (session, found) ↦ ground (
          arith,
          kept,
          text_eq_iff session.device_id device_id,
          text_eq_iff session.device_id other,
          text_eq_iff device_id other,
        )
      ],
    )

-- A host that is removed leaves nothing behind: no token opens it, and it has no frame, no queue
-- and no viewer.
pub remove_revokes :
    (now : ℕ) (device_id token : Text) (s : AppState)
    → let t = remove_preview_state device_id s in
      (validate_host now device_id token t ≡ false)
      × ((validate_viewer now device_id token t).1 ≡ false)
      × (Map.get device_id t.frames ≡ none)
      × (Map.get device_id t.command_queues ≡ none)
unfolding remove_preview_state disconnect_viewers_for_device validate_viewer validate_host
    put_demand
remove_revokes now device_id token s = (
  ground (arith, get-remove device_id device_id s.previews, text_eq_refl device_id),
  ground (
    arith,
    get-retain token (λ _ (v : ViewerSession). not (text_eq v.device_id device_id))
        s.viewer_sessions,
  ),
  ground (
    arith,
    get-remove device_id device_id (Map.remove device_id s.frames),
    text_eq_refl device_id,
  ),
  ground (arith, get-remove device_id device_id s.command_queues, text_eq_refl device_id),
)

pub same_account-sessions :
    (now : ℕ) (owner token : Option Text) (s : AppState)
    → (same_account now owner token s).0.viewer_sessions ≡ s.viewer_sessions
unfolding same_account validate_auth_token validate_auth_session
same_account-sessions now none token s = refl
same_account-sessions now (some owner) none s = ground arith
same_account-sessions now (some owner) (some token) s = ground arith

-- A viewer whose token resolves gets a session that is valid for that device.
pub admit-validate :
    (now : ℕ) (viewer_token device_id : Text) (headers : OriginHeaders) (r : PreviewRegistration)
    (s : AppState)
    → (validate_viewer now device_id viewer_token
        (admit_viewer now viewer_token device_id headers r s).0).1
      ≡ true
unfolding admit_viewer validate_viewer
admit-validate now viewer_token device_id headers r s = ground (
  arith,
  text_eq_refl viewer_token,
  text_eq_refl device_id,
  get-insert viewer_token viewer_token (record { device_id = device_id; last_seen_ms = now })
      s.viewer_sessions,
)

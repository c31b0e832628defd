-- ===== src/Server/Previews/Renewal.antt =====
-- crates/rdesk_server/src/main.rs, `register_preview`: who may renew a host's registration.
use rdesk.Prelude.{ℕ, ◌≡◌, ◌↔◌, ◌⊎◌, inl, inr, Text, true, false, ◌||◌, some, arith, Bool-cases}
use rdesk.Map
use rdesk.Server.State.{AppState, PreviewRegistration, success, bare}
use rdesk.Server.Sessions.{validate_auth_token}
use rdesk.Server.Previews.Access.{validate_auth-previews}
use rdesk.Server.Previews.{
  RegisterPreviewRequest, host_token_for, register_preview, enter_preview, token_matches,
  same_owner,
}
use rdesk.Server.Previews.Entitled.{
  HoldsToken, OwnsDevice, or_iff, auth_iff, same_owner_iff, token_matches_iff,
}

-- How the registration goes on, behind the choice of the host token.
register_cases :
    (now : ℕ) (fresh_token : Text) (request : RegisterPreviewRequest) (entry : PreviewRegistration)
    (s : AppState)
    → Map.get request.device_id s.previews ≡ some entry
    → let t = register_preview now fresh_token request s in
      let entitled =
        token_matches request entry
        || same_owner (validate_auth_token now request.auth_token s).1 entry.user_id in
      ((t.1 ≡ success entry.host_token) × (entitled ≡ true))
      ⊎ ((t.1 ≡ bare 401) × (t.0.previews ≡ s.previews) × (entitled ≡ false))
unfolding register_preview host_token_for enter_preview
register_cases now fresh_token request entry s found =
    elim (Bool-cases (token_matches request entry)) [
      | inl matches ↦ inl (ground arith, ground arith)
      | inr other ↦
          elim (Bool-cases
            (same_owner (validate_auth_token now request.auth_token s).1 entry.user_id)) [
              | inl owner ↦ inl (ground arith, ground arith)
              | inr stranger ↦ inr (
                ground arith,
                ground (arith, validate_auth-previews now request.auth_token s),
                ground arith,
              )
            ]
    ]

entitled_iff :
    (now : ℕ) (request : RegisterPreviewRequest) (entry : PreviewRegistration) (s : AppState)
    → ((token_matches request entry
          || same_owner (validate_auth_token now request.auth_token s).1 entry.user_id)
        ≡ true)
      ↔ (HoldsToken request entry ⊎ OwnsDevice now request entry s)
entitled_iff now request entry s =
    let caller = (validate_auth_token now request.auth_token s).1 in
    let same = same_owner_iff caller entry.user_id in
    or_iff _ _ (token_matches_iff request entry) (
      (λ e.
          let (user_id, owns, is) = same.0 e in
          (user_id, owns, (auth_iff now user_id request.auth_token s).0 is)),
      (λ (user_id, owns, speaks).
          same.1 (user_id, owns, (auth_iff now user_id request.auth_token s).1 speaks)),
    )

-- For a device that is registered, either the answer is the device's present host token, and the
-- caller showed that token, which is not empty, or the token of a session, used in the last thirty
-- days, of the account that the device is bound to; or the answer is 401, no registration changes,
-- and the caller showed neither.
pub register_preview_iff :
    (now : ℕ) (fresh_token : Text) (request : RegisterPreviewRequest) (entry : PreviewRegistration)
    (s : AppState)
    → Map.get request.device_id s.previews ≡ some entry
    → let t = register_preview now fresh_token request s in
      ((t.1 ≡ success entry.host_token)
        × (HoldsToken request entry ⊎ OwnsDevice now request entry s))
      ⊎ ((t.1 ≡ bare 401)
          × (t.0.previews ≡ s.previews)
          × ¬ (HoldsToken request entry ⊎ OwnsDevice now request entry s))
register_preview_iff now fresh_token request entry s found =
    let entitled = entitled_iff now request entry s in
    elim (register_cases now fresh_token request entry s found) [
      | inl (kept, e) ↦ inl (kept, entitled.0 e)
      | inr (refused, same, e) ↦ inr (refused, same, λ h. let yes = entitled.1 h in ground arith)
    ]

-- ===== src/Server/Previews/Entitled.antt =====
-- crates/rdesk_server/src/main.rs, `register_preview` and `resolve_preview`: what a caller has to
-- show to renew a host's registration, or to be let in to look at a host.
use rdesk.Prelude.{
  ℕ, ◌+◌, ◌≤◌, ◌≡◌, ◌≢◌, ◌↔◌, ◌⊎◌, inl, inr, refl, Text, text_eq, text_eq_iff, text_eq_refl, Bool,
  true, false, ◌&&◌, ◌||◌, not, Option, none, some, [], ◌∷◌, arith, Option-cases, is_empty,
  is_some_and, any, any_iff, Any,
}
use rdesk.Map
use rdesk.Server.State.{AppState, PreviewRegistration, AuthSession}
use rdesk.Server.Sessions.{validate_auth_token, validate_auth_session}
use rdesk.Server.Previews.{
  RegisterPreviewRequest, token_matches, same_owner, or_empty, ResolvePreviewRequest, password_ok,
  trusted_ok, same_account,
}

-- The caller shows the token of an account's session that was used in the last thirty days.
abbrev pub SpeaksFor : ℕ → Option Text → Text → AppState → Type 0
SpeaksFor now auth_token user_id s =
    (token : Text) × (session : AuthSession) × (auth_token ≡ some token)
    × (Map.get token s.auth_sessions ≡ some session)
    × (session.user_id ≡ user_id)
    × (now ≤ session.last_seen_ms + 2592000000)

-- The caller shows the host's own token, which is not empty.
abbrev pub HoldsToken : RegisterPreviewRequest → PreviewRegistration → Type 0
HoldsToken request entry = (request.host_token ≡ some entry.host_token) × (entry.host_token ≢ [])

-- The host is bound to an account, and the caller speaks for it.
abbrev pub OwnsDevice : ℕ → RegisterPreviewRequest → PreviewRegistration → AppState → Type 0
OwnsDevice now request entry s =
    (user_id : Text) × (entry.user_id ≡ some user_id) × SpeaksFor now request.auth_token user_id s

abbrev pub KnowsPassword : ResolvePreviewRequest → PreviewRegistration → Type 0
KnowsPassword request r = (request.password_hash ≡ some r.password_hash) × (r.password_hash ≢ [])

-- The host accepts trusted viewers by itself, and the caller names one of them.
abbrev pub IsTrusted : ResolvePreviewRequest → PreviewRegistration → Type 0
IsTrusted request r =
    (r.auto_accept ≡ true)
    × ((viewer : Text) × (request.requester_id ≡ some viewer)
        × Any (λ item. item ≡ viewer) r.trusted_viewers)

-- The host is bound to an account with a name, and the caller speaks for it.
abbrev pub IsOwner : ℕ → ResolvePreviewRequest → PreviewRegistration → AppState → Type 0
IsOwner now request r s =
    (user_id : Text) × (r.user_id ≡ some user_id)
    × (user_id ≢ [])
    × SpeaksFor now request.auth_token user_id s

-- The host is registered, was heard of in the last thirty seconds, and has a reason to let the
-- caller in.
abbrev pub IsEntitled : ℕ → Text → ResolvePreviewRequest → AppState → Type 0
IsEntitled now device_id request s =
    (r : PreviewRegistration) × (Map.get device_id s.previews ≡ some r)
    × (now ≤ r.updated_at_ms + 30000)
    × (KnowsPassword request r ⊎ (IsTrusted request r ⊎ IsOwner now request r s))

pub or_iff :
    {P Q : Type 0} (a b : Bool) → (a ≡ true) ↔ P → (b ≡ true) ↔ Q → ((a || b) ≡ true) ↔ (P ⊎ Q)
or_iff true b p q = (λ e. inl (p.0 refl), λ e. refl)
or_iff false b p q =
    (λ e. inr (q.0 e), λ e. elim e [ inl x ↦ (let no = p.1 x in ground arith) | inr y ↦ q.1 y ])

some_session :
    (now : ℕ) (user_id token : Text) (session : AuthSession) (s : AppState)
    → Map.get token s.auth_sessions ≡ some session
    → ((validate_auth_session now token s).1 ≡ some user_id)
      ↔ ((session.user_id ≡ user_id) × (now ≤ session.last_seen_ms + 2592000000))
unfolding validate_auth_session
some_session now user_id token session s found =
    (λ e. (ground arith, ground arith), λ (same, recent). ground arith)

pub auth_iff :
    (now : ℕ) (user_id : Text) (auth_token : Option Text) (s : AppState)
    → ((validate_auth_token now auth_token s).1 ≡ some user_id) ↔ SpeaksFor now auth_token user_id s
unfolding validate_auth_token
auth_iff now user_id none s =
    (λ e. absurd (ground arith), λ (token, session, e, _, _, _). absurd (ground arith))
auth_iff now user_id (some token) s = elim (Option-cases (Map.get token s.auth_sessions)) [
  | inl missing ↦ (
    λ e. absurd (unfold validate_auth_session in ground arith),
    λ (other, session, e, found, _, _). absurd (ground arith),
  )
  | inr (session, found) ↦
      let this = some_session now user_id token session s found in
      (
        λ e. (token, session, refl, found, (this.0 e).0, (this.0 e).1),
        λ (other, shown, e, found', same, recent). this.1 (ground arith, ground arith),
      )
]

pub same_owner_iff :
    (caller owner : Option Text)
    → (same_owner caller owner ≡ true)
      ↔ ((user_id : Text) × (owner ≡ some user_id) × (caller ≡ some user_id))
same_owner_iff none owner = (λ e. absurd (ground arith), λ (u, e, f). absurd (ground arith))
same_owner_iff (some a) none = (λ e. absurd (ground arith), λ (u, e, f). absurd (ground arith))
same_owner_iff (some a) (some b) =
    (λ e. (b, refl, ground (arith, text_eq_iff a b)), λ (u, e, f). ground (arith, text_eq_iff a b))

nonempty : (t : Text) → (is_empty t ≡ false) ↔ (t ≢ [])
nonempty [] = (λ e. absurd (ground arith), λ h. absurd (h refl))
nonempty (c ∷ t) = (λ e. cc, λ h. refl)

pub token_matches_iff :
    (request : RegisterPreviewRequest) (entry : PreviewRegistration)
    → (token_matches request entry ≡ true) ↔ HoldsToken request entry
token_matches_iff request entry = go request.host_token
  where
    go :
        (o : Option Text)
        → ((not (is_empty (or_empty o)) && text_eq (or_empty o) entry.host_token) ≡ true)
          ↔ ((o ≡ some entry.host_token) × (entry.host_token ≢ []))
    go none = (λ e. absurd (ground arith), λ (e, _). absurd (ground arith))
    go (some t) = (
      λ e.
          let same = (text_eq_iff t entry.host_token).0 (ground arith) in
          (ground arith, (nonempty entry.host_token).0 (ground (arith, same))),
      λ (e, h).
          let filled = (nonempty entry.host_token).1 h in
          ground (arith, text_eq_refl entry.host_token),
    )

pub password_iff :
    (request : ResolvePreviewRequest) (r : PreviewRegistration)
    → (password_ok request r ≡ true) ↔ KnowsPassword request r
password_iff request r = go request.password_hash
  where
    go :
        (o : Option Text)
        → (is_some_and (λ hash. not (is_empty hash) && text_eq hash r.password_hash) o ≡ true)
          ↔ ((o ≡ some r.password_hash) × (r.password_hash ≢ []))
    go none = (λ e. absurd (ground arith), λ (e, _). absurd (ground arith))
    go (some t) = (
      λ e.
          let same = (text_eq_iff t r.password_hash).0 (ground arith) in
          (ground arith, (nonempty r.password_hash).0 (ground (arith, same))),
      λ (e, h).
          let filled = (nonempty r.password_hash).1 h in
          ground (arith, text_eq_refl r.password_hash),
    )

pub trusted_ok_iff :
    (request : ResolvePreviewRequest) (r : PreviewRegistration)
    → (trusted_ok request r ≡ true) ↔ IsTrusted request r
trusted_ok_iff request r = go r.auto_accept request.requester_id
  where
    listed :
        (viewer : Text)
        → (any (λ item. text_eq item viewer) r.trusted_viewers ≡ true)
          ↔ Any (λ item. item ≡ viewer) r.trusted_viewers
    listed viewer =
        any_iff _ (λ item. text_eq item viewer) (λ item. text_eq_iff item viewer) r.trusted_viewers

    go :
        (accepts : Bool) (o : Option Text)
        → ((accepts && is_some_and (λ v. any (λ item. text_eq item v) r.trusted_viewers) o) ≡ true)
          ↔ ((accepts ≡ true)
              × ((viewer : Text) × (o ≡ some viewer)
                  × Any (λ item. item ≡ viewer) r.trusted_viewers))
    go false o = (λ e. absurd (ground arith), λ (e, _). absurd (ground arith))
    go true none = (λ e. absurd (ground arith), λ (_, (_, e, _)). absurd (ground arith))
    go true (some v) = (
      λ e. (refl, (v, refl, (listed v).0 e)),
      λ (_, (viewer, e, h)). let same : v ≡ viewer = ground arith in rw same ((listed viewer).1 h),
    )

caller_iff :
    (u : Text) (caller : Option Text) → (is_some_and (text_eq u) caller ≡ true) ↔ (caller ≡ some u)
caller_iff u none = (λ e. absurd (ground arith), λ e. absurd (ground arith))
caller_iff u (some c) = (λ e. ground (arith, text_eq_iff u c), λ e. ground (arith, text_eq_iff u c))

pub same_account_iff :
    (now : ℕ) (request : ResolvePreviewRequest) (r : PreviewRegistration) (s : AppState)
    → ((same_account now r.user_id request.auth_token s).1 ≡ true) ↔ IsOwner now request r s
unfolding same_account
same_account_iff now request r s = go r.user_id
  where
    go :
        (o : Option Text)
        → ((same_account now o request.auth_token s).1 ≡ true) ↔ (
            (user_id : Text) × (o ≡ some user_id)
            × (user_id ≢ [])
            × SpeaksFor now request.auth_token user_id s)
    go none = (λ e. absurd (ground arith), λ (_, e, _, _). absurd (ground arith))
    go (some u) =
        let auth = auth_iff now u request.auth_token s in
        (
          λ e. (
            u,
            refl,
            (nonempty u).0 (ground arith),
            auth.0
                ((caller_iff u (validate_auth_token now request.auth_token s).1).0 (ground arith)),
          ),
          λ (user_id, e, filled, speaks).
              let same : u ≡ user_id = ground arith in
              let named = (nonempty user_id).1 filled in
              let caller =
                (caller_iff user_id (validate_auth_token now request.auth_token s).1).1
                  ((auth_iff now user_id request.auth_token s).1 speaks) in
              ground arith,
        )

-- ===== src/Server/Sessions.antt =====
-- crates/rdesk_server/src/main.rs: who is calling. The tokens of viewers, hosts and accounts, each
-- checked at a given time. A request's Authorization header is an optional text.
use rdesk.Prelude.{
  ℕ, Text, text_eq, codes, strip_prefix, Bool, true, false, ◌&&◌, not, Option, none, some,
  if◌then◌else◌, is_empty, keep_if,
}
use rdesk.Map
use rdesk.Server.State.{
  AppState, ViewerSession, UserRecord, is_fresh, preview_ttl_ms, viewer_session_ttl_ms,
  auth_session_ttl_ms,
}

-- Whether a viewer's session is for the device and has not run out.
abbrev pub session_valid : ℕ → Text → ViewerSession → Bool
session_valid now device_id session =
    text_eq session.device_id device_id && is_fresh now session.last_seen_ms viewer_session_ttl_ms

unfoldable pub validate_viewer : ℕ → Text → Text → AppState → AppState × Bool
validate_viewer now device_id token s = elim (Map.get token s.viewer_sessions) [
  | none ↦ (s, false)
  | some session ↦
      if session_valid now device_id session
      then (
        record s {
          viewer_sessions =
              Map.insert token (record session { last_seen_ms = now }) s.viewer_sessions;
        },
        true,
      )
      else (s, false)
]

unfoldable pub validate_host : ℕ → Text → Text → AppState → Bool
validate_host now device_id host_token s = elim (Map.get device_id s.previews) [
  | none ↦ false
  | some preview ↦
      text_eq preview.host_token host_token && is_fresh now preview.updated_at_ms preview_ttl_ms
]

unfoldable pub validate_auth_session : ℕ → Text → AppState → AppState × Option Text
validate_auth_session now token s = elim (Map.get token s.auth_sessions) [
  | none ↦ (s, none)
  | some session ↦
      if is_fresh now session.last_seen_ms auth_session_ttl_ms
      then (
        record s {
          auth_sessions = Map.insert token (record session { last_seen_ms = now }) s.auth_sessions;
        },
        some session.user_id,
      )
      else (s, none)
]

-- The same for a token that a request may leave out: `as_deref().and_then(..)`.
unfoldable pub validate_auth_token : ℕ → Option Text → AppState → AppState × Option Text
validate_auth_token now none s = (s, none)
validate_auth_token now (some token) s = validate_auth_session now token s

abbrev pub or_else {ℓ} : {A : Type ℓ} → Option A → Option A → Option A
or_else none b = b
or_else (some a) b = some a

unfoldable pub parse_bearer_token : Text → Option Text
unfolding strip_prefix
parse_bearer_token value =
    keep_if (λ token. not (is_empty token))
      (or_else (strip_prefix (codes "Bearer ") value) (strip_prefix (codes "bearer ") value))

unfoldable pub user_of : AppState × Option Text → AppState × Option UserRecord
user_of (s, none) = (s, none)
user_of (s, some user_id) = (s, Map.get user_id s.users)

abbrev pub bearer_of : Option Text → Option Text
bearer_of none = none
bearer_of (some value) = parse_bearer_token value

unfoldable pub authenticated_user : ℕ → Option Text → AppState → AppState × Option UserRecord
unfolding validate_auth_token user_of
authenticated_user now header s = user_of (validate_auth_token now (bearer_of header) s)

pub record AccountSessionResponse : Type 0 where
  pub token : Text
  pub user_id : Text
  pub username : Text
  pub display_name : Text

-- The new token is an argument.
unfoldable pub create_account_session :
    ℕ → Text → UserRecord → AppState → AppState × AccountSessionResponse
create_account_session now token user s = (
  record s {
    auth_sessions =
        Map.insert token (record { user_id = user.user_id; last_seen_ms = now }) s.auth_sessions;
  },
  record {
    token = token;
    user_id = user.user_id;
    username = user.username;
    display_name = user.display_name;
  },
)

-- ===== src/Server/Previews/Registration.antt =====
-- crates/rdesk_server/src/main.rs: the registration and the removal of hosts.
use rdesk.Prelude.{
  ℕ, Text, text_eq, Bool, true, false, ◌&&◌, not, Option, none, some, List, [], if◌then◌else◌,
  is_empty,
}
use rdesk.Map
use rdesk.Server.State.{AppState, PreviewRegistration, Response, success, bare}
use rdesk.Server.Sessions.{validate_host, validate_auth_token, or_else}
use rdesk.Server.Screen.{disconnect_viewers_for_device}

pub record RegisterPreviewRequest : Type 0 where
  pub device_id : Text
  pub auth_token : Option Text
  pub host_token : Option Text
  pub platform : Text
  pub hostname : Text
  pub password_hash : Text
  pub auto_accept : Bool
  pub trusted_viewers : List Text
  pub on_demand_capture : Bool

abbrev pub or_empty : Option Text → Text
or_empty none = []
or_empty (some t) = t

-- `Option<String>` equality, where both are known to be there.
abbrev pub same_owner : Option Text → Option Text → Bool
same_owner none b = false
same_owner (some a) none = false
same_owner (some a) (some b) = text_eq a b

abbrev pub token_matches : RegisterPreviewRequest → PreviewRegistration → Bool
token_matches request entry =
    not (is_empty (or_empty request.host_token))
    && text_eq (or_empty request.host_token) entry.host_token

-- The host token that a registration ends with: the present one for its holder or for its owner's
-- account, a new one where there is no entry, and none where the caller is refused.
unfoldable pub host_token_for :
    ℕ → Text → RegisterPreviewRequest → AppState → AppState × Option Text
host_token_for now fresh_token request s = elim (Map.get request.device_id s.previews) [
  | none ↦ (s, some fresh_token)
  | some entry ↦
      if token_matches request entry
      then (s, some entry.host_token)
      else (let (s', caller_uid) = validate_auth_token now request.auth_token s in
          (s', if same_owner caller_uid entry.user_id then some entry.host_token else none))
]

abbrev pub bound_user : Option PreviewRegistration → Option Text
bound_user none = none
bound_user (some entry) = entry.user_id

-- The registration that a request becomes.
abbrev pub registration : ℕ → Option Text → Text → RegisterPreviewRequest → PreviewRegistration
registration now user_id host_token request = record {
  device_id = request.device_id;
  user_id = user_id;
  platform = request.platform;
  hostname = request.hostname;
  password_hash = request.password_hash;
  auto_accept = request.auto_accept;
  trusted_viewers = request.trusted_viewers;
  host_token = host_token;
  on_demand_capture = request.on_demand_capture;
  updated_at_ms = now;
}

-- `register_preview` behind its choice of the host token.
unfoldable pub enter_preview :
    ℕ
    → RegisterPreviewRequest
    → Option PreviewRegistration
    → Option Text
    → AppState
    → AppState × Response Text
enter_preview now request existing none s = (s, bare 401)
enter_preview now request existing (some host_token) s =
    let (s', caller_uid) = validate_auth_token now request.auth_token s in
    (
      record s' {
        previews =
            Map.insert request.device_id
              (registration now (or_else caller_uid (bound_user existing)) host_token request)
              s'.previews;
      },
      success host_token,
    )

unfoldable pub register_preview :
    ℕ → Text → RegisterPreviewRequest → AppState → AppState × Response Text
unfolding host_token_for enter_preview
register_preview now fresh_token request s =
    let (s', granted) = host_token_for now fresh_token request s in
    enter_preview now request (Map.get request.device_id s.previews) granted s'

unfoldable pub remove_preview_state : Text → AppState → AppState
unfolding disconnect_viewers_for_device
remove_preview_state device_id s =
    let s' = disconnect_viewers_for_device device_id s in
    record s' {
      previews = Map.remove device_id s'.previews;
      frames = Map.remove device_id s'.frames;
      command_queues = Map.remove device_id s'.command_queues;
    }

unfoldable pub unregister_preview : ℕ → Text → Text → AppState → AppState × ℕ
unregister_preview now device_id host_token s =
    if validate_host now device_id host_token s
    then (remove_preview_state device_id s, 200)
    else (s, 401)

unfoldable pub disconnect_viewers : ℕ → Text → Text → AppState → AppState × Response Bool
disconnect_viewers now device_id host_token s =
    if validate_host now device_id host_token s
    then (disconnect_viewers_for_device device_id s, success true)
    else (s, bare 401)

-- ===== src/Server/Previews/Resolve.antt =====
-- crates/rdesk_server/src/main.rs: `resolve_preview`, how a viewer is let in.
use rdesk.Prelude.{
  ℕ, Text, text_eq, codes, Bool, true, false, ◌&&◌, ◌||◌, not, Option, none, some, ◌++◌,
  if◌then◌else◌, is_empty, is_some_and, keep_if, any,
}
use rdesk.Map
use rdesk.Server.State.{AppState, PreviewRegistration, is_fresh, preview_ttl_ms, incoming}
use rdesk.Server.Sessions.{validate_host, validate_auth_token, or_else}
use rdesk.Server.Commands.{enqueue}
use rdesk.Server.Previews.Registration.{or_empty, remove_preview_state}

pub record ResolvePreviewRequest : Type 0 where
  pub password_hash : Option Text
  pub requester_id : Option Text
  pub auth_token : Option Text
  pub requester_hostname : Option Text
  pub requester_peer_os : Option Text

pub record ResolvePreviewResponse : Type 0 where
  pub found : Bool
  pub authorized : Bool
  pub endpoint : Option Text
  pub platform : Option Text
  pub hostname : Option Text
  pub updated_at_ms : Option ℕ

abbrev pub unresolved_response : ResolvePreviewResponse
unresolved_response = record {
  found = false;
  authorized = false;
  endpoint = none;
  platform = none;
  hostname = none;
  updated_at_ms = none;
}

abbrev pub unauthorized_response : ResolvePreviewResponse
unauthorized_response = record unresolved_response { found = true }

abbrev pub password_ok : ResolvePreviewRequest → PreviewRegistration → Bool
password_ok request r =
    is_some_and (λ hash. not (is_empty hash) && text_eq hash r.password_hash) request.password_hash

abbrev pub trusted_ok : ResolvePreviewRequest → PreviewRegistration → Bool
trusted_ok request r =
    r.auto_accept
    && is_some_and (λ requester. any (λ item. text_eq item requester) r.trusted_viewers)
        request.requester_id

-- The caller's token is read only for a host that is bound to an account.
unfoldable pub same_account : ℕ → Option Text → Option Text → AppState → AppState × Bool
same_account now none auth_token s = (s, false)
same_account now (some host_uid) auth_token s =
    if is_empty host_uid
    then (s, false)
    else (let (s', caller) = validate_auth_token now auth_token s in
        (s', is_some_and (text_eq host_uid) caller))

-- `x-forwarded-host` and `x-forwarded-proto`, with `host`, of the request.
pub record OriginHeaders : Type 0 where
  pub forwarded_host : Option Text
  pub host : Option Text
  pub forwarded_proto : Option Text

unfoldable pub request_public_origin : OriginHeaders → Text
request_public_origin headers =
    let present = keep_if (λ (value : Text). not (is_empty value)) in
    let host = or_empty (
      or_else (present (or_else headers.forwarded_host headers.host))
        (some (codes "127.0.0.1:21116"))) in
    let proto = or_empty (or_else (present headers.forwarded_proto) (some (codes "http"))) in
    proto ++ codes "://" ++ host

unfoldable pub endpoint_of : OriginHeaders → Text → Text → Text
unfolding request_public_origin
endpoint_of headers device_id viewer_token =
    request_public_origin headers
    ++ codes "/frame.jpg?device_id="
    ++ device_id
    ++ codes "&token="
    ++ viewer_token

-- The viewer's session and the answer, where the viewer is let in.
unfoldable pub admit_viewer :
    ℕ
    → Text
    → Text
    → OriginHeaders
    → PreviewRegistration
    → AppState
    → AppState × ResolvePreviewResponse
unfolding endpoint_of
admit_viewer now viewer_token device_id headers r s = (
  record s {
    viewer_sessions =
        Map.insert viewer_token (record { device_id = device_id; last_seen_ms = now })
          s.viewer_sessions;
  },
  record {
    found = true;
    authorized = true;
    endpoint = some (endpoint_of headers device_id viewer_token);
    platform = some r.platform;
    hostname = some r.hostname;
    updated_at_ms = some r.updated_at_ms;
  },
)

-- `map_or(true, |h| h.is_empty())`.
abbrev pub passwordless : ResolvePreviewRequest → Bool
passwordless request = not (is_some_and (λ hash. not (is_empty hash)) request.password_hash)

-- How `resolve_preview` goes on: it answers, or it asks the host and waits, with the registration
-- and the host's token that it has read.
pub data Resolved : Type 0 where
  answered : ResolvePreviewResponse → Resolved
  asking : PreviewRegistration → Resolved

-- The question to the host, for a caller without a password who names himself.
unfoldable pub ask_host :
    ℕ → Text → Text → ResolvePreviewRequest → PreviewRegistration → AppState → AppState × Resolved
ask_host now command_id device_id request r s =
    if passwordless request && validate_host now device_id r.host_token s
    then elim request.requester_id [
      | none ↦ (s, answered unauthorized_response)
      | some requester_id ↦ (
        enqueue device_id
            (record {
              command_id = command_id;
              kind = codes "incoming_request";
              payload =
                  incoming requester_id
                    (or_empty (or_else request.requester_hostname (some (codes "未知设备"))))
                    (or_empty (or_else request.requester_peer_os (some (codes "未知"))));
              queued_at_ms = now;
            })
            s,
        asking r,
      )
    ]
    else (s, answered unauthorized_response)

-- `resolve_preview` up to its wait for the host. The ids are the random ones that it draws.
unfoldable pub resolve_preview :
    ℕ → Text → Text → Text → OriginHeaders → ResolvePreviewRequest → AppState → AppState × Resolved
unfolding same_account ask_host admit_viewer
resolve_preview now command_id viewer_token device_id headers request s =
    elim (Map.get device_id s.previews) [
      | none ↦ (s, answered unresolved_response)
      | some r ↦
          if is_fresh now r.updated_at_ms preview_ttl_ms
          then (let (s1, account_ok) = same_account now r.user_id request.auth_token s in
              if password_ok request r || trusted_ok request r || account_ok
              then (let (s2, response) = admit_viewer now viewer_token device_id headers r s1 in
                  (s2, answered response))
              else ask_host now command_id device_id request r s1)
          else (remove_preview_state device_id s, answered unresolved_response)
    ]

-- The rest of it. The wait ended with the host's reply, or with the time up.
unfoldable pub end_resolve :
    ℕ
    → Text
    → Text
    → Text
    → OriginHeaders
    → PreviewRegistration
    → AppState
    → AppState × ResolvePreviewResponse
unfolding admit_viewer
end_resolve now command_id viewer_token device_id headers r s =
    elim (Map.get command_id s.replies) [
      | none ↦ (
        record s { command_waiters = Map.remove command_id s.command_waiters },
        unauthorized_response,
      )
      | some result ↦
          let s' = record s { replies = Map.remove command_id s.replies } in
          if result.ok && validate_host now device_id r.host_token s'
          then admit_viewer now viewer_token device_id headers r s'
          else (s', unauthorized_response)
    ]

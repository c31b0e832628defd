-- ===== src/Server/State.antt =====
-- crates/rdesk_server/src/main.rs: the state of the relay server, and its small helpers.
--
-- A DashMap is a `Map`. The oneshot channel of a command has its sender in `command_waiters`, by the
-- command's id; the value that was sent stands in `replies` until the request that waits takes it. A broadcast channel is the list
-- of the frames sent through it, newest first, and the channel to a WebSocket host is the list of
-- its messages, newest first. `user_store` and `session_store` are what the two files of the
-- server hold, so that a write is a change of the state. Numbers of JSON are the text that they are written as.
use rdesk.Prelude.{ℕ, ◌-◌, Text, Bool, true, false, Option, List, [], leb, if◌then◌else◌}
use rdesk.Map.{Map}
use rdesk.Wake.Model.{WakeAccountData}
use rdesk.Wake.Pairing.State.{PairingRuntime, no_pairings}

abbrev pub preview_ttl_ms : ℕ
preview_ttl_ms = 30000

abbrev pub account_presence_ttl_ms : ℕ
account_presence_ttl_ms = 75000

abbrev pub screen_lease_ms : ℕ
screen_lease_ms = 10000

abbrev pub viewer_session_ttl_ms : ℕ
viewer_session_ttl_ms = 1800000

abbrev pub command_ttl_ms : ℕ
command_ttl_ms = 15000

abbrev pub file_max_bytes : ℕ
file_max_bytes = 52428800

abbrev pub file_store_max_bytes : ℕ
file_store_max_bytes = 157286400

abbrev pub auth_session_ttl_ms : ℕ
auth_session_ttl_ms = 2592000000

abbrev pub min_password_len : ℕ
min_password_len = 6

pub record WsFrame : Type 0 where
  pub bytes : List ℕ
  pub width : ℕ
  pub height : ℕ
  pub captured_at_ms : ℕ
  pub relay_received_at_ms : ℕ

pub record FileBlob : Type 0 where
  pub content : List ℕ
  pub filename : Text
  pub created_at_ms : ℕ
  pub device_id : Text

pub record PreviewRegistration : Type 0 where
  pub device_id : Text
  pub user_id : Option Text
  pub platform : Text
  pub hostname : Text
  pub password_hash : Text
  pub auto_accept : Bool
  pub trusted_viewers : List Text
  pub host_token : Text
  pub on_demand_capture : Bool
  pub updated_at_ms : ℕ

pub record AccountPresence : Type 0 where
  pub device_id : Text
  pub user_id : Text
  pub platform : Text
  pub hostname : Text
  pub can_host : Bool
  pub updated_at_ms : ℕ

pub record FrameSnapshot : Type 0 where
  pub bytes : List ℕ
  pub width : ℕ
  pub height : ℕ
  pub captured_at_ms : ℕ
  pub relay_received_at_ms : ℕ
  pub updated_at_ms : ℕ

-- A lease holds the viewer's token and the time until which it runs.
pub record ScreenDemand : Type 0 where
  pub epoch : ℕ
  pub viewers : Map (Text × ℕ)

-- `ScreenDemand::default()`, for `entry(device_id).or_default()`.
abbrev pub no_demand : ScreenDemand
no_demand = record { epoch = 0; viewers = [] }

pub record ViewerSession : Type 0 where
  pub device_id : Text
  pub last_seen_ms : ℕ

pub record UserRecord : Type 0 where
  pub user_id : Text
  pub username : Text
  pub display_name : Text
  pub password_hash : Text
  pub created_at_ms : ℕ
  pub wake : WakeAccountData

pub record AuthSession : Type 0 where
  pub user_id : Text
  pub last_seen_ms : ℕ

-- The JSON payloads of the commands; `value` is one that a client sent as it stands.
pub data Payload : Type 0 where
  trust : Text → Text → Text → Payload
  point : Text → Text → Payload
  action : Text → Payload
  drag : Text → Text → Text → Text → Payload
  text : Text → Payload
  path : Text → Payload
  file : Text → Text → ℕ → Payload
  incoming : Text → Text → Text → Payload
  value : Text → Payload
  nothing : Payload

pub record PendingCommand : Type 0 where
  pub command_id : Text
  pub kind : Text
  pub payload : Payload
  pub queued_at_ms : ℕ

pub record CommandResult : Type 0 where
  pub ok : Bool
  pub text : Option Text

-- `wake::Runtime`: the pairings, and when the agents and targets were last seen.
pub record Runtime : Type 0 where
  pub pairings : PairingRuntime
  pub agents : Map ℕ
  pub targets : Map ℕ

pub record AppState : Type 0 where
  pub wake_runtime : Runtime
  pub previews : Map PreviewRegistration
  pub account_presence : Map AccountPresence
  pub frames : Map FrameSnapshot
  pub viewer_sessions : Map ViewerSession
  pub screen_demands : Map ScreenDemand
  pub command_queues : Map (List PendingCommand)
  pub command_waiters : Map (Unit {0})
  pub replies : Map CommandResult
  pub users : Map UserRecord
  pub username_index : Map Text
  pub auth_sessions : Map AuthSession
  pub frame_broadcasters : Map (List WsFrame)
  pub ws_host_cmd_tx : Map (List PendingCommand)
  pub file_store : Map FileBlob
  pub file_bytes : ℕ
  pub user_store : List UserRecord
  pub session_store : Map AuthSession

-- `AppState::new`.
abbrev pub new_state : AppState
new_state = record {
  wake_runtime = record { pairings = no_pairings; agents = []; targets = [] };
  previews = [];
  account_presence = [];
  frames = [];
  viewer_sessions = [];
  screen_demands = [];
  command_queues = [];
  command_waiters = [];
  replies = [];
  users = [];
  username_index = [];
  auth_sessions = [];
  frame_broadcasters = [];
  ws_host_cmd_tx = [];
  file_store = [];
  file_bytes = 0;
  user_store = [];
  session_store = [];
}

-- A response: a value with status 200, or a status with the message of `error_response`, which is
-- empty where the handler answers with the bare status.
pub data Response {ℓ} (A : Type ℓ) : Type ℓ where
  success : A → Response A
  failure : ℕ → Text → Response A

abbrev pub bare {ℓ} : {A : Type ℓ} → ℕ → Response A
bare status = failure status []

-- `is_fresh`, the current time given.
abbrev pub is_fresh : ℕ → ℕ → ℕ → Bool
is_fresh now updated_at_ms ttl_ms = leb (now - updated_at_ms) ttl_ms

-- What holds of the states of both branches holds of the one taken.
pub if_state :
    {A : Type 0} (P : AppState → Type 0) (b : Bool) (x y : AppState × A)
    → P x.0
    → P y.0
    → P (if b then x else y).0
if_state P true x y p q = p
if_state P false x y p q = q

-- ===== src/Bridge/Registry.antt =====
-- crates/rdesk_bridge/src/state.rs: the registry of the clients of the process.
--
-- The registry owns its clients; a call that looks one up holds it until it returns. Whether the
-- registry held the last reference to a client that it lets go is a parameter.
pub mod Laws
use rdesk.Prelude.{ℕ, Bool, if◌then◌else◌, Option, none, some, [], Text}
use rdesk.Map
use rdesk.Map.{Map}
use rdesk.Common.Disk.{Result, ok, err, unknown_session, not_found}
use rdesk.Core.Sessions.{Sessions, session_at}
use rdesk.Core.Viewing.{RemoteClient, drop}

pub record Process : Type 0 where
  pub registry : Map RemoteClient
  pub sessions : Sessions

-- `client.session().id()`.
abbrev pub id_of : RemoteClient → Sessions → Text
id_of client sessions = elim (session_at client.session sessions) [ none ↦ [] | some s ↦ s.id ]

-- A client that the registry lets go.
abbrev released : Bool → Option RemoteClient → Sessions → Sessions
released last none sessions = sessions
released last (some client) sessions = if last then drop client sessions else sessions

unfoldable pub register_client : Bool → RemoteClient → Process → Process × Text
unfolding Map.get Map.insert drop session_at
register_client last client process =
    let session_id = id_of client process.sessions in
    (
      record {
        registry = Map.insert session_id client process.registry;
        sessions = released last (Map.get session_id process.registry) process.sessions;
      },
      session_id,
    )

unfoldable pub get_client : Text → Process → Result RemoteClient
unfolding Map.get
get_client session_id process = elim (Map.get session_id process.registry) [
  | none ↦ err unknown_session
  | some client ↦ ok client
]

unfoldable pub remove_client : Text → Process → Process × Option RemoteClient
unfolding Map.get Map.remove
remove_client session_id process = (
  record process { registry = Map.remove session_id process.registry },
  Map.get session_id process.registry,
)

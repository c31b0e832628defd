-- ===== src/Core/Hosting.antt =====
-- crates/rdesk_core/src/server.rs: the host's end.
--
-- The number that is drawn for an identifier is a parameter.
pub mod Steps
pub mod Stopping
use rdesk.Prelude.{
  ℕ, ◌+◌, Bool, true, false, not, if◌then◌else◌, Option, none, some, List, [], ◌∷◌, ◌++◌, length,
  Text, codes,
}
use rdesk.Common.Config.{AppConfig}
use rdesk.Common.DeviceId.{decimal}
use rdesk.Common.Disk.{Result, ok, err, not_implemented}
use rdesk.Core.Capture.{create_capturer}
use rdesk.Core.Codec.{raw_encoder}
use rdesk.Core.Input.{create_input_simulator}
use rdesk.Core.Lifecycle.{
  Session, new, set_capturer, set_encoder, set_input, StateError, start, activate, stop,
}
use rdesk.Core.Sessions.{Sessions, change_session, add_session}

pub record RemoteServer : Type 0 where
  pub config : AppConfig
  pub listening : Bool
  pub sessions : List ℕ

-- A server, and the sessions of its process.
pub record Host : Type 0 where
  pub server : RemoteServer
  pub made : Sessions

pub data AcceptError : Type 0 where
  not_listening : AcceptError
  refused : StateError → AcceptError

pub data Accepted : Type 0 where
  accepted : ℕ → Accepted
  failed : AcceptError → Accepted

unfoldable pub start_server : AppConfig → Result RemoteServer
start_server config = err not_implemented

unfoldable pub session_id_of : AppConfig → ℕ → Text
session_id_of config drawn =
    codes "server-" ++ (config.device_id ++ (codes "-" ++ decimal 10 drawn))

-- A session with what the host attaches.
unfoldable pub equipped : Text → Session
unfolding new set_capturer set_encoder set_input create_capturer create_input_simulator
equipped id =
    set_input create_input_simulator
      (set_encoder raw_encoder (set_capturer create_capturer (new id)))

unfoldable pub track : Session → Host → Host × Accepted
unfolding add_session
track s host =
    let session = length host.made in
    (
      record {
        server = record host.server { sessions = host.server.sessions ++ session ∷ [] };
        made = add_session s host.made;
      },
      accepted session,
    )

-- What follows `start`, and `activate`: the question marks of the source.
unfoldable pub activated : Session × Option StateError → Host → Host × Accepted
unfolding track
activated (s, none) host = track s host
activated (s, some e) host = (host, failed (refused e))

unfoldable pub started : Session × Option StateError → Host → Host × Accepted
unfolding activated activate
started (s, none) host = activated (activate s) host
started (s, some e) host = (host, failed (refused e))

unfoldable pub accept_connection : ℕ → Host → Host × Accepted
unfolding started start equipped session_id_of
accept_connection drawn host =
    if not host.server.listening
    then (host, failed not_listening)
    else started (start (equipped (session_id_of host.server.config drawn))) host

unfoldable pub stop_each : List ℕ → Sessions → Sessions
unfolding change_session stop
stop_each [] made = made
stop_each (i ∷ sessions) made = stop_each sessions (change_session i stop made)

unfoldable pub stop_server : Host → Host
unfolding stop_each
stop_server host = record {
  server = record host.server { listening = false };
  made = stop_each host.server.sessions host.made;
}

unfoldable pub is_listening : Host → Bool
is_listening host = host.server.listening

unfoldable pub active_session_count : Host → ℕ
active_session_count host = length host.server.sessions

-- ===== src/Tests/Data.antt =====
-- Test data: an account with two devices, and a host with a viewer.
use rdesk.Prelude.{codes, true, false, some, [], ◌∷◌}
use rdesk.Server.State.{
  AppState, new_state, PreviewRegistration, ViewerSession, UserRecord, PendingCommand, nothing,
  CommandResult, FileBlob,
}
use rdesk.Wake.Model.{WakeAccountData, WakeAgent, WakeTarget, no_wake_data}

abbrev pub agent : WakeAgent
agent = record { id = codes "agent"; name = codes "box"; token_hash = codes "hash"; enabled = true }

abbrev pub target : WakeTarget
target = record {
  setup_complete = true;
  id = codes "target";
  name = codes "pc";
  device_id = codes "pc";
  mac = codes "02:00:00:00:00:01";
  agent_id = codes "agent";
  revision = 1;
  token_hash = codes "hash";
  created_at_ms = 0;
}

abbrev pub wake_data : WakeAccountData
wake_data = record { targets = target ∷ []; agents = agent ∷ []; requests = [] }

abbrev pub user : UserRecord
user = record {
  user_id = codes "u1";
  username = codes "ann";
  display_name = codes "Ann";
  password_hash = codes "secret";
  created_at_ms = 0;
  wake = wake_data;
}

abbrev pub newcomer : UserRecord
newcomer = record user { user_id = codes "u2"; username = codes "bob"; wake = no_wake_data }

-- One user, in the table and in the file.
abbrev pub with_user : AppState
with_user = record new_state {
  users = (codes "u1", user) ∷ [];
  username_index = (codes "ann", codes "u1") ∷ [];
  user_store = user ∷ [];
}

abbrev pub host : PreviewRegistration
host = record {
  device_id = codes "pc";
  user_id = some (codes "u1");
  platform = codes "windows";
  hostname = codes "PC";
  password_hash = codes "word";
  auto_accept = false;
  trusted_viewers = [];
  host_token = codes "host";
  on_demand_capture = true;
  updated_at_ms = 1000;
}

abbrev pub viewer : ViewerSession
viewer = record { device_id = codes "pc"; last_seen_ms = 1000 }

-- A host that captures on demand, and a viewer who is let in but does not watch yet.
abbrev pub hosting : AppState
hosting = record new_state {
  previews = (codes "pc", host) ∷ [];
  viewer_sessions = (codes "viewer", viewer) ∷ [];
}

abbrev pub command : PendingCommand
command = record {
  command_id = codes "c1";
  kind = codes "displays";
  payload = nothing;
  queued_at_ms = 1000;
}

abbrev pub reply : CommandResult
reply = record { ok = true; text = some (codes "[1]") }

-- The host's queue has a command that a request waits for.
abbrev pub commanded : AppState
commanded = record hosting {
  command_queues = (codes "pc", command ∷ []) ∷ [];
  command_waiters = (codes "c1", tt) ∷ [];
}

abbrev pub blob : FileBlob
blob = record {
  content = 1 ∷ 2 ∷ [];
  filename = codes "a.txt";
  created_at_ms = 1000;
  device_id = codes "pc";
}

abbrev pub with_file : AppState
with_file = record hosting { file_store = (codes "f1", blob) ∷ []; file_bytes = 2 }

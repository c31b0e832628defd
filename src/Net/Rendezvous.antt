-- ===== src/Net/Rendezvous.antt =====
-- crates/rdesk_net/src/rendezvous/client.rs and relay/client.rs: the clients of the signaling and
-- of the relay server, which answer without a connection.
use rdesk.Prelude.{ℕ, ◌≤◌, ◌≡◌, Bool, true, [], Text, Bytes, ℤ, pos}
use rdesk.Common.DeviceId.{validate_device_id, generate_device_id}
use rdesk.Common.DeviceId.Numerals.{validate_device_id-generate_device_id}

pub record FetchPeerResponse : Type 0 where
  pub found : Bool
  pub pk : Bytes
  pub nat_type : ℤ
  pub online : Bool

pub record PunchHoleResponse : Type 0 where
  pub socket_addr : Bytes
  pub nat_type : ℤ
  pub pk : Bytes
  pub failure : ℤ

pub record RegisterPeerResponse : Type 0 where
  pub success : Bool
  pub error : Text

pub record RendezvousClient : Type 0 where
  pub server_addr : Text

pub record RelayClient : Type 0 where
  pub server_addr : Text

unfoldable pub new : Text → RendezvousClient
new server_addr = record { server_addr = server_addr }

unfoldable pub connect : Text → RelayClient
connect server_addr = record { server_addr = server_addr }

unfoldable pub fetch_peer : Text → RendezvousClient → FetchPeerResponse
unfolding validate_device_id
fetch_peer device_id client =
    let found = validate_device_id device_id in
    record { found = found; pk = []; nat_type = pos 0; online = found }

unfoldable pub punch_hole : Text → Text → RendezvousClient → PunchHoleResponse
punch_hole device_id token client = record {
  socket_addr = [];
  nat_type = pos 0;
  pk = [];
  failure = pos 0;
}

unfoldable pub register_peer : Text → RendezvousClient → RegisterPeerResponse
register_peer device_id client = record { success = true; error = [] }

-- Every identifier that a device can draw is found, and is online.
pub fetch_peer-generate_device_id :
    (drawn : ℕ) (client : RendezvousClient)
    → 100000000 ≤ drawn
    → drawn ≤ 999999999
    → ((fetch_peer (generate_device_id drawn) client).found ≡ true)
      × ((fetch_peer (generate_device_id drawn) client).online ≡ true)
unfolding fetch_peer
fetch_peer-generate_device_id drawn client low high =
    let valid = (validate_device_id-generate_device_id drawn low high).0 in (valid, valid)

-- ===== src/Tests/Client.antt =====
-- The theorems on the device's identifier, its configuration and its connections, at concrete data.
use rdesk.Prelude.{◌≡◌, ◌≢◌, refl, true, Option, none, some, [], ◌∷◌, codes, arith, Text, text_eq}
use rdesk.Common.Config.{AppConfig, load, default, config_path}
use rdesk.Common.DeviceId.{
  generate_device_id, validate_device_id, get_or_create_device_id, load_device_id,
}
use rdesk.Common.DeviceId.Numerals.{number_of, validate_device_id-generate_device_id}
use rdesk.Common.DeviceId.Storage.{get_or_create_again}
use rdesk.Common.Disk.{ok, err, unknown_session, not_found}
use rdesk.Common.Platform.{linux}
use rdesk.Core.Codec.{raw_decoder}
use rdesk.Core.Lifecycle.{new}
use rdesk.Core.Sessions.{session_at}
use rdesk.Core.Viewing.{RemoteClient}
use rdesk.Core.Viewing.Disconnected.{IsGone}
use rdesk.Bridge.Connection.{get_device_id, set_permanent_password, disconnect}
use rdesk.Bridge.Registry.{Process, get_client}
use rdesk.Bridge.Registry.Laws.{disconnect_forgets_session}
use rdesk.Bridge.Settings.{DeviceInfoData, get_device_info}
use rdesk.Bridge.Settings.Identifiers.{get_device_info_differs}
use rdesk.Bridge.Settings.Kept.{IsPassword, load-set_permanent_password}
use rdesk.Tests.Disks.{
  config_file, Files, disk, disk-IsDisk, print, json, json-IsJson, plain, plain-IsArgon2,
}

validate_device_id-generate_device_id_example :
    (validate_device_id (generate_device_id 123456789) ≡ true)
    × (number_of (generate_device_id 123456789) ≡ 123456789)
validate_device_id-generate_device_id_example =
    validate_device_id-generate_device_id 123456789 (omega arith) (omega arith)

abbrev nothing_stored : Files
nothing_stored = (none, none)

get_or_create_again_example :
    get_or_create_device_id disk 987654321 (some (codes "123456789"), none)
    ≡ ((some (codes "123456789"), none), ok (codes "123456789"))
unfolding get_or_create_device_id text_eq
get_or_create_again_example =
    get_or_create_again disk disk-IsDisk 123456789 987654321 (codes "123456789") nothing_stored
      (some (codes "123456789"), none) (omega arith) (omega arith) refl

abbrev configured : Option Text → AppConfig
configured permanent = record default {
  device_id = codes "123456789";
  permanent_password = permanent;
}

abbrev saved : Option Text → Files
saved permanent = (none, some (print (configured permanent)))

load-set_permanent_password_example :
    (config : AppConfig) × (between : Files) × (permanent : Option Text) × (load disk json 123456789
        (saved none)
      ≡ (between, ok config))
    × (load disk json 987654321 (saved (some (codes "pw")))
        ≡ (saved (some (codes "pw")), ok (record config { permanent_password = permanent })))
    × IsPassword plain (codes "pw") permanent
unfolding set_permanent_password text_eq
load-set_permanent_password_example =
    load-set_permanent_password disk json disk-IsDisk json-IsJson plain 123456789 987654321
      (codes "salt") (codes "pw") (saved none) (saved (some (codes "pw"))) plain-IsArgon2 refl

abbrev info : DeviceInfoData
info = record {
  device_id = codes "987654321";
  platform = codes "Linux";
  signaling_server = codes "qisw.top:80";
  relay_server = codes "qisw.top:80";
}

abbrev with_id : Files
with_id = (some (codes "123456789"), none)

abbrev with_both : Files
with_both =
    (some (codes "123456789"), some (print (record default { device_id = codes "987654321" })))

get_device_info_differs_example :
    (get_device_id disk json 123456789 0 nothing_stored ≡ (with_id, codes "123456789"))
    × (codes "123456789" ≢ info.device_id)
unfolding load_device_id get_or_create_device_id config_path get_device_info text_eq
get_device_info_differs_example =
    get_device_info_differs disk json linux 123456789 0 987654321 (codes "123456789") info
      config_file nothing_stored nothing_stored with_id with_id with_both (omega arith)
      (omega arith) (omega arith) (omega arith) (λ e. omega arith) refl refl refl refl refl

abbrev client : RemoteClient
client = record { session = 0; decoder = raw_decoder; remote_device_id = codes "123456789" }

abbrev process : Process
process = record { registry = (codes "s", client) ∷ []; sessions = new (codes "s") ∷ [] }

disconnect_forgets_session_example :
    let after = (disconnect (codes "s") process).0 in
    (c : RemoteClient) × (get_client (codes "s") process ≡ ok c)
    × (get_client (codes "s") after ≡ err unknown_session)
    × IsGone (session_at c.session after.sessions)
    × (get_client (codes "t") after ≡ get_client (codes "t") process)
    × ((disconnect (codes "s") after).1 ≡ err not_found)
unfolding disconnect text_eq
disconnect_forgets_session_example =
    disconnect_forgets_session (codes "s") (codes "t") process (disconnect (codes "s") process).0
      refl refl

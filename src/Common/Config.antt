-- ===== src/Common/Config.antt =====
-- crates/rdesk_common/src/config.rs: the configuration and its file.
--
-- `serde_json` stands outside: a `Json` has its two calls on an `AppConfig`.
pub mod Storage
use Prim.Native.String.{String}
use rdesk.Prelude.{ℕ, Bool, not, if◌then◌else◌, Option, none, some, [], Text, codes}
use rdesk.Common.Disk.{
  Disk, Io, pure, reading, writing, ◌>>=◌, ◌>>◌, read, write, directory, parse, serialise,
}
use rdesk.Common.DeviceId.{generate_device_id}

abbrev pub config_file_name : Text
config_file_name = codes "config.json"

pub record AppConfig : Type 0 where
  pub signaling_server : Text
  pub relay_server : Text
  pub device_id : Text
  pub permanent_password : Option Text

pub record Json : Type 0 where
  pub to_string_pretty : AppConfig → Option Text
  pub from_str : Text → Option AppConfig

abbrev pub default_signaling_server : Text
default_signaling_server = codes "qisw.top:80"

abbrev pub default_relay_server : Text
default_relay_server = codes "qisw.top:80"

unfoldable pub default : AppConfig
default = record {
  signaling_server = default_signaling_server;
  relay_server = default_relay_server;
  device_id = [];
  permanent_password = none;
}

module _ (D : Disk) (J : Json) where
  unfoldable pub config_dir : Io D.FileSystem D.Location
  unfolding directory
  config_dir = directory D D.config_dir

  unfoldable pub config_path : Io D.FileSystem D.Location
  unfolding config_dir
  config_path = do dir ← config_dir; pure (D.join dir config_file_name)

  unfoldable pub save : AppConfig → Io D.FileSystem (Unit {0})
  unfolding config_path
  save config = do
    path ← config_path
    text ← reading serialise (λ fs. J.to_string_pretty config)
    writing write (D.write path text)

  -- A file that is there.
  unfoldable pub parsed : D.Location → Io D.FileSystem AppConfig
  parsed path = do
    text ← reading read (D.read_to_string path)
    reading parse (λ fs. J.from_str text)

  unfoldable pub load : ℕ → Io D.FileSystem AppConfig
  unfolding config_path parsed save default generate_device_id
  load drawn = do
    path ← config_path
    there ← λ fs. pure (D.exists path fs) fs
    let config : AppConfig = record default { device_id = generate_device_id drawn }
    if there then parsed path else save config >> pure config

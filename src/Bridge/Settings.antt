-- ===== src/Bridge/Settings.antt =====
-- crates/rdesk_bridge/src/api/settings.rs and device.rs: what the screens of the settings show and
-- save.
pub mod Kept
pub mod Identifiers
use rdesk.Prelude.{ℕ, Bool, is_some, Text}
use rdesk.Common.Config.{AppConfig, Json, load, save}
use rdesk.Common.Disk.{Disk, Io, pure, ◌>>=◌}
use rdesk.Common.Platform.{Platform, platform_name}

pub record SettingsData : Type 0 where
  pub signaling_server : Text
  pub relay_server : Text
  pub has_permanent_password : Bool

pub record DeviceInfoData : Type 0 where
  pub device_id : Text
  pub platform : Text
  pub signaling_server : Text
  pub relay_server : Text

module _ (D : Disk) (J : Json) where
  unfoldable pub load_settings : ℕ → Io D.FileSystem SettingsData
  unfolding load
  load_settings drawn = do
    config ← load D J drawn
    pure (record {
      signaling_server = config.signaling_server;
      relay_server = config.relay_server;
      has_permanent_password = is_some config.permanent_password;
    })

  unfoldable pub save_settings : ℕ → Text → Text → Io D.FileSystem (Unit {0})
  unfolding load save
  save_settings drawn signaling_server relay_server = do
    config ← load D J drawn
    save D J (record config { signaling_server = signaling_server; relay_server = relay_server })

  unfoldable pub get_device_info : Platform → ℕ → Io D.FileSystem DeviceInfoData
  unfolding load platform_name
  get_device_info current drawn = do
    config ← load D J drawn
    pure (record {
      device_id = config.device_id;
      platform = platform_name current;
      signaling_server = config.signaling_server;
      relay_server = config.relay_server;
    })

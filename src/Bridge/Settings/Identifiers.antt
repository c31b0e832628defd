-- ===== src/Bridge/Settings/Identifiers.antt =====
-- crates/rdesk_bridge/src/api/connection.rs and device.rs: the two identifiers of a new device.
use rdesk.Prelude.{ℕ, ◌≤◌, ◌≡◌, ◌≢◌, refl, ap, sym, ◌∙◌, false, none, arith, Text}
use rdesk.Common.Config.{AppConfig, Json, load, config_path, default}
use rdesk.Common.DeviceId.{generate_device_id, load_device_id, get_or_create_device_id}
use rdesk.Common.DeviceId.Numerals.{number_of, validate_device_id-generate_device_id}
use rdesk.Common.Disk.{Disk, Result, ok, err}
use rdesk.Common.Platform.{Platform}
use rdesk.Bridge.Connection.{get_device_id}
use rdesk.Bridge.Settings.{DeviceInfoData, get_device_info}

-- The identifiers tell their numbers.
distinct :
    (n m : ℕ)
    → 100000000 ≤ n
    → n ≤ 999999999
    → 100000000 ≤ m
    → m ≤ 999999999
    → n ≢ m
    → generate_device_id n ≢ generate_device_id m
distinct n m a b c d differ same = differ (
    sym (validate_device_id-generate_device_id n a b).1
    ∙ ap number_of same
    ∙ (validate_device_id-generate_device_id m c d).1)

module _ (D : Disk) (J : Json) where
  created_id :
      (drawn : ℕ) (id : Text) (fs between fs' : D.FileSystem)
      → load_device_id D fs ≡ (between, ok none)
      → get_or_create_device_id D drawn fs ≡ (fs', ok id)
      → id ≡ generate_device_id drawn
  unfolding get_or_create_device_id
  created_id drawn id fs between fs' l e = ground arith

  created_config :
      (drawn : ℕ) (config : AppConfig) (path : D.Location) (fs between fs' : D.FileSystem)
      → config_path D J fs ≡ (between, ok path)
      → D.exists path between ≡ false
      → load D J drawn fs ≡ (fs', ok config)
      → config.device_id ≡ generate_device_id drawn
  unfolding load
  created_config drawn config path fs between fs' p x e =
      let made : AppConfig = record default { device_id = generate_device_id drawn } in
      let same : made ≡ config = ground arith in ap (λ c. c.device_id) (sym same)

  shown_config :
      (current : Platform) (drawn : ℕ) (info : DeviceInfoData) (fs fs' : D.FileSystem)
      → get_device_info D J current drawn fs ≡ (fs', ok info)
      → (config : AppConfig) × (load D J drawn fs ≡ (fs', ok config))
        × (info.device_id ≡ config.device_id)
  unfolding get_device_info
  shown_config current drawn info fs fs' e = go (load D J drawn fs) refl
    where
      go :
          (p : D.FileSystem × Result AppConfig)
          → load D J drawn fs ≡ p
          → (config : AppConfig) × (load D J drawn fs ≡ (fs', ok config))
            × (info.device_id ≡ config.device_id)
      go (between, err x) l = absurd (ground arith)
      go (between, ok config) l = (config, ground arith, ground arith)

  -- On a device that has neither a file with an identifier nor a configuration, and where both are
  -- made without an error, the identifier that `get_device_id` returns is not the one that
  -- `get_device_info` returns, if the numbers drawn for the two differ and are in their range.
  pub get_device_info_differs :
      (current : Platform) (drawn spare second : ℕ) (id : Text) (info : DeviceInfoData)
      (path : D.Location) (fs fs0 fs1 fs2 fs3 : D.FileSystem)
      → 100000000 ≤ drawn
      → drawn ≤ 999999999
      → 100000000 ≤ second
      → second ≤ 999999999
      → drawn ≢ second
      → load_device_id D fs ≡ (fs0, ok none)
      → get_or_create_device_id D drawn fs ≡ (fs1, ok id)
      → config_path D J fs1 ≡ (fs2, ok path)
      → D.exists path fs2 ≡ false
      → get_device_info D J current second fs1 ≡ (fs3, ok info)
      → (get_device_id D J drawn spare fs ≡ (fs1, id)) × (id ≢ info.device_id)
  unfolding get_device_id
  get_device_info_differs current drawn spare second id info path fs fs0 fs1 fs2 fs3 a b c d differ
        none_there made p x e =
      let first = created_id drawn id fs fs0 fs1 none_there made in
      let (config, l, shown) = shown_config current second info fs1 fs3 e in
      let other = created_config second config path fs1 fs2 fs3 p x l in
      (
        ground arith,
        λ same. distinct drawn second a b c d differ (sym first ∙ same ∙ shown ∙ other),
      )

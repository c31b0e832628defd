-- ===== src/Common/Config/Storage.antt =====
-- crates/rdesk_common/src/config.rs: the configuration across calls.
use rdesk.Prelude.{ℕ, ◌≡◌, refl, true, some, Text, arith, Bool-cases, Option-cases, inl, inr}
use rdesk.Common.Disk.{Disk, IsDisk, Result, ok, err}
use rdesk.Common.Disk.Directory.{join_ready, directory_again}
use rdesk.Common.DeviceId.{generate_device_id}
use rdesk.Common.Config.{
  AppConfig, Json, config_file_name, config_dir, config_path, save, parsed, load, default,
}

-- What the calls of `serde_json` document.
pub record IsJson (J : Json) : Type 0 where
  pub from_str-to_string :
      (config : AppConfig) (text : Text)
      → J.to_string_pretty config ≡ some text
      → J.from_str text ≡ some config

module _ (D : Disk) (J : Json) where
  -- The file is there and holds the configuration.
  abbrev pub Stored : AppConfig → D.FileSystem → Type 0
  Stored config fs =
      (dir : D.Location) × (text : Text) × (D.config_dir ≡ some dir)
      × (D.exists dir fs ≡ true)
      × (D.exists (D.join dir config_file_name) fs ≡ true)
      × (D.read_to_string (D.join dir config_file_name) fs ≡ some text)
      × (J.from_str text ≡ some config)

  path_again :
      (fs : D.FileSystem) (dir : D.Location)
      → D.config_dir ≡ some dir
      → D.exists dir fs ≡ true
      → config_path D J fs ≡ (fs, ok (D.join dir config_file_name))
  unfolding config_path config_dir
  path_again fs dir d x = ground (arith, directory_again D fs dir x)

  pub load-Stored :
      (drawn : ℕ) (config : AppConfig) (fs : D.FileSystem)
      → Stored config fs
      → load D J drawn fs ≡ (fs, ok config)
  unfolding load parsed
  load-Stored drawn config fs (dir, text, d, x, there, t, c) = ground (arith, path_again fs dir d x)

  module _ (is : IsDisk D) (js : IsJson J) where
    path_ready :
        (fs fs' : D.FileSystem) (path : D.Location)
        → config_path D J fs ≡ (fs', ok path)
        → (dir : D.Location) × (D.config_dir ≡ some dir)
          × (path ≡ D.join dir config_file_name)
          × (D.exists dir fs' ≡ true)
    unfolding config_path config_dir
    path_ready fs fs' path e = join_ready D is D.config_dir config_file_name fs fs' path e

    pub save-Stored :
        (config : AppConfig) (fs fs' : D.FileSystem)
        → save D J config fs ≡ (fs', ok tt)
        → Stored config fs'
    unfolding save
    save-Stored config fs fs' e = go (config_path D J fs) refl
      where
        go : (p : D.FileSystem × Result D.Location) → config_path D J fs ≡ p → Stored config fs'
        go (between, err x) d = absurd (ground arith)
        go (between, ok path) d = elim (Option-cases (J.to_string_pretty config)) [
          | inl n ↦ absurd (ground arith)
          | inr (text, t) ↦
              let (dir, dd, named, there) = path_ready fs between path d in
              let done : (D.write path text between).1 ≡ true = ground arith in
              let same : (D.write path text between).0 ≡ fs' = ground arith in
              (
                dir,
                text,
                dd,
                rw same at (is.exists-write_other path dir text between there),
                rw (same, named) at (is.exists-write path text between done),
                rw (same, named) at (is.read-write path text between done),
                js.from_str-to_string config text t,
              )
        ]

    pub load-stores :
        (drawn : ℕ) (config : AppConfig) (fs fs' : D.FileSystem)
        → load D J drawn fs ≡ (fs', ok config)
        → Stored config fs'
    unfolding load parsed
    load-stores drawn config fs fs' e = go (config_path D J fs) refl
      where
        created : AppConfig
        created = record default { device_id = generate_device_id drawn }

        go : (p : D.FileSystem × Result D.Location) → config_path D J fs ≡ p → Stored config fs'
        go (between, err x) d = absurd (ground arith)
        go (between, ok path) d =
            let (dir, dd, named, there) = path_ready fs between path d in
            elim (Bool-cases (D.exists path between)) [
              | inl x ↦ elim (Option-cases (D.read_to_string path between)) [
                | inl n ↦ absurd (ground arith)
                | inr (text, t) ↦
                    let same : between ≡ fs' = ground arith in
                    (
                      dir,
                      text,
                      dd,
                      rw same at there,
                      rw (same, named) at x,
                      rw (same, named) at t,
                      ground arith,
                    )
              ]
              | inr x ↦
                  let saved : save D J created between ≡ (fs', ok tt) = ground arith in
                  let same : created ≡ config = ground arith in
                  rw same at (save-Stored created between fs' saved)
            ]

    -- If the file system and the JSON library behave as `IsDisk` and `IsJson` say, then a
    -- configuration that was saved without an error is what is loaded afterwards.
    pub load-save :
        (drawn : ℕ) (config : AppConfig) (fs fs' : D.FileSystem)
        → save D J config fs ≡ (fs', ok tt)
        → load D J drawn fs' ≡ (fs', ok config)
    load-save drawn config fs fs' e = load-Stored drawn config fs' (save-Stored config fs fs' e)

    -- If the file system and the JSON library behave as `IsDisk` and `IsJson` say, then a
    -- configuration that was loaded is loaded again, whatever numbers are drawn: so also the one
    -- that the first call makes.
    pub load_again :
        (drawn next : ℕ) (config : AppConfig) (fs fs' : D.FileSystem)
        → load D J drawn fs ≡ (fs', ok config)
        → load D J next fs' ≡ (fs', ok config)
    load_again drawn next config fs fs' e =
        load-Stored next config fs' (load-stores drawn config fs fs' e)

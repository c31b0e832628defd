-- ===== src/Bridge/Connection.antt =====
-- crates/rdesk_bridge/src/api/connection.rs: the device, its passwords, and connections.
--
-- The numbers and the salt that are drawn are parameters.
use rdesk.Prelude.{ℕ, Bool, Option, none, some, [], Text, is_empty, if◌then◌else◌}
use rdesk.Common.Config.{Json, load, save}
use rdesk.Common.DeviceId.{get_or_create_device_id}
use rdesk.Common.Disk.{Disk, Io, Result, ok, err, pure, ◌>>=◌, not_found}
use rdesk.Common.Password.{Argon2, hash_password}
use rdesk.Core.Viewing.{RemoteClient, connect, start_viewing}
use rdesk.Core.Viewing
use rdesk.Bridge.Registry.{Process, register_client, remove_client}

abbrev lifted {ℓ} : {S : Type 0} {A : Type ℓ} → Result A → Io S A
lifted r s = (s, r)

-- The file system and the process.
abbrev pub on_disk {ℓ} : {F : Type 0} {A : Type ℓ} → Io F A → Io (F × Process) A
on_disk m (fs, process) = let (fs', r) = m fs in ((fs', process), r)

abbrev register : {F : Type 0} → Bool → RemoteClient → Io (F × Process) Text
register last client (fs, process) =
    let (process', session_id) = register_client last client process in
    ((fs, process'), ok session_id)

unfoldable pub disconnect : Text → Io Process (Unit {0})
unfolding remove_client Viewing.disconnect
disconnect session_id process =
    let (left, removed) = remove_client session_id process in
    elim removed [
      | none ↦ (left, err not_found)
      | some client ↦ (record left { sessions = Viewing.disconnect client left.sessions }, ok tt)
    ]

module _ (D : Disk) (J : Json) where
  -- The fallback is the identifier of the configuration.
  unfoldable pub get_device_id : ℕ → ℕ → D.FileSystem → D.FileSystem × Text
  unfolding get_or_create_device_id load
  get_device_id drawn spare fs =
      let (fs', r) = get_or_create_device_id D drawn fs in
      let (fs'', c) = load D J spare fs' in
      elim r [
        | ok id ↦ (fs', id)
        | err e ↦ elim c [ ok config ↦ (fs'', config.device_id) | err e ↦ (fs'', []) ]
      ]

  unfoldable pub set_permanent_password : Argon2 → ℕ → Text → Text → Io D.FileSystem (Unit {0})
  unfolding load save hash_password
  set_permanent_password A drawn salt password = do
    config ← load D J drawn
    permanent ←
        if is_empty password
        then pure {A = Option Text} none
        else (lifted (hash_password A salt password) >>= λ text. pure (some text))
    save D J (record config { permanent_password = permanent })

  unfoldable pub connect_to_peer : Bool → ℕ → Text → Text → Io (D.FileSystem × Process) Text
  unfolding load connect start_viewing register_client
  connect_to_peer last drawn device_id password = do
    config ← on_disk (load D J drawn)
    client ← lifted (connect device_id password config)
    viewing ← lifted (start_viewing client)
    register last client

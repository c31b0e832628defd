-- ===== src/Bridge/Registry/Laws.antt =====
-- crates/rdesk_bridge/src: which sessions are known, through registering, connecting and
-- disconnecting.
use rdesk.Prelude.{
  ℕ, ◌≡◌, refl, ap, sym, ◌∙◌, Bool, false, none, some, arith, Text, text_eq, text_eq_refl,
  Option-cases, inl, inr,
}
use rdesk.Map
use rdesk.Map.Laws.{get-insert, get-remove}
use rdesk.Common.Config.{AppConfig, Json, load}
use rdesk.Common.Disk.{Disk, Result, ok, err, Failure, unknown_session, not_found, not_implemented}
use rdesk.Core.Sessions.{session_at}
use rdesk.Core.Viewing.{RemoteClient}
use rdesk.Core.Viewing
use rdesk.Core.Viewing.Disconnected.{IsGone, disconnect-IsGone}
use rdesk.Bridge.Registry.{Process, id_of, register_client, get_client, remove_client}
use rdesk.Bridge.Connection.{disconnect, connect_to_peer}

-- A client is registered under the identifier of its session: the identifier gives the client, and
-- every other identifier gives what it gave before.
pub get_client-register_client :
    (last : Bool) (client : RemoteClient) (process : Process) (other : Text)
    → text_eq (id_of client process.sessions) other ≡ false
    → let after = (register_client last client process).0 in
      (get_client (id_of client process.sessions) after ≡ ok client)
      × (get_client other after ≡ get_client other process)
unfolding register_client get_client
get_client-register_client last client process other e =
    let id = id_of client process.sessions in
    let own : Map.get id (Map.insert id client process.registry) ≡ some client =
      get-insert id id client process.registry ∙ rw (text_eq_refl id) refl in
    let kept : Map.get other (Map.insert id client process.registry)
        ≡ Map.get other process.registry =
      get-insert other id client process.registry ∙ rw e refl in
    (ground arith, ground arith)

-- A call of `disconnect` that succeeds had a client to disconnect: afterwards the identifier is
-- unknown, the client's session has ended, every other identifier gives what it gave before, and
-- disconnecting again is an error.
pub disconnect_forgets_session :
    (id other : Text) (process after : Process)
    → text_eq id other ≡ false
    → disconnect id process ≡ (after, ok tt)
    → (client : RemoteClient) × (get_client id process ≡ ok client)
      × (get_client id after ≡ err unknown_session)
      × IsGone (session_at client.session after.sessions)
      × (get_client other after ≡ get_client other process)
      × ((disconnect id after).1 ≡ err not_found)
unfolding disconnect remove_client get_client
disconnect_forgets_session id other process after e h =
    elim (Option-cases (Map.get id process.registry)) [
      | inl n ↦ absurd (ground arith)
      | inr (client, g) ↦
          let registry : Map.remove id process.registry ≡ after.registry = ground arith in
          let sessions : Viewing.disconnect client process.sessions ≡ after.sessions =
            ground arith in
          let gone : Map.get id after.registry ≡ none =
            ap (Map.get id) (sym registry)
            ∙ get-remove id id process.registry
            ∙ rw (text_eq_refl id) refl in
          let kept : Map.get other after.registry ≡ Map.get other process.registry =
            ap (Map.get other) (sym registry) ∙ get-remove other id process.registry ∙ rw e refl in
          (
            client,
            ground arith,
            ground arith,
            rw sessions at (disconnect-IsGone client process.sessions),
            ground arith,
            ground arith,
          )
    ]

-- A call of `connect_to_peer` always fails, and changes nothing but what loading the configuration
-- does to the file system.
pub connect_to_peer_lem :
    (D : Disk) (J : Json) (last : Bool) (drawn : ℕ) (device_id password : Text) (fs : D.FileSystem)
    (process : Process)
    → (e : Failure) × (connect_to_peer D J last drawn device_id password (fs, process)
        ≡ (((load D J drawn fs).0, process), err e))
unfolding connect_to_peer Viewing.connect
connect_to_peer_lem D J last drawn device_id password fs process = go (load D J drawn fs) refl
  where
    go :
        (p : D.FileSystem × Result AppConfig)
        → load D J drawn fs ≡ p
        → (e : Failure) × (connect_to_peer D J last drawn device_id password (fs, process)
            ≡ (((load D J drawn fs).0, process), err e))
    go (fs', ok config) l = (not_implemented, ground arith)
    go (fs', err e) l = (e, ground arith)

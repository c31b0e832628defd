-- ===== src/Lib.antt =====
-- rdesk, a remote desktop: the relay server, crates/rdesk_server/src, with what it keeps and what each
-- of its requests does; the crates that the two ends of a connection share, for the framing of
-- messages, the cryptography and the discovery of addresses; and the two ends themselves: sessions,
-- the controller's and the host's side, the device's identifier and configuration, and the functions
-- that the Flutter client calls.
--
-- The relay server is one process. Its state is `AppState` (main.rs): tables of hosts, viewers, screen
-- leases, command queues, files in transit, accounts and their sessions, and two files on the disk.
-- Requests come over HTTP and run side by side; each handler here is a function from the state to
-- the state and a response. Where a handler waits (for a host's answer, or for a lock) it is cut in
-- two, a `begin_` and an `end_` function, or it takes `others`, a function that stands for whatever
-- other requests do to the state in the meantime.
--
-- The parts, and the files that model them:
--   Server/State.antt: the records of main.rs. A DashMap is `Map` (Map.antt), an association list.
--   Each command has a oneshot channel. Its sender stands in `command_waiters`, by the command's id;
--     the value that was sent through it stands in `replies` until the request that waits takes it.
--   Server/Sessions.antt: main.rs, `validate_viewer`, `validate_host`, `validate_auth_session`,
--     `parse_bearer_token`, `authenticated_user`, `create_account_session`.
--   Server/Screen.antt: main.rs, `clear_demand_frames` to `close_viewer_session`, and
--     `disconnect_viewers_for_device`: the leases on a screen and the epochs of its audiences.
--   Server/Commands.antt: main.rs, `poll_host_command`, `complete_host_command`,
--     `forward_command_within` and the endpoints for input, clipboard, displays and settings.
--     Commands/Requests.antt is what other requests do while a command waits; Dated, Waiting and
--     Answered follow one command from its queue to its answer.
--   Server/Previews.antt and its parts Registration, Resolve and Frames: main.rs, `register_preview`, `unregister_preview`, `disconnect_viewers`,
--     `resolve_preview`, `upload_frame`, `fetch_frame`. Previews/Entitled.antt says what a caller has
--     to show; Renewal and Admission use it.
--   Server/Files.antt: main.rs, `safe_file_name`, `FileReservation`, `admit_file`, `file_upload`,
--     `relay_file`, `file_host_download`, `file_download`.
--   Server/Accounts.antt and its parts Records, Entry and Presence: main.rs, `register_account` to `upsert_account_presence`, the loading and
--     saving of accounts, and `write_user_snapshot` of wake/store.rs.
--     Lives follows the table and its file through registrations and deletions.
--   Server/Cleanup.antt: main.rs, `cleanup_expired`.
--   Server/Sockets.antt: main.rs, `ws_host_handler`, `handle_ws_host`, `ws_viewer_handler` and
--     `handle_ws_viewer`.
--   Wake/Model.antt and Wake/Mac.antt: wake/model.rs.
--   Wake/Store.antt: wake/store.rs, `update_wake`, the one way to change an account's wake data.
--   Wake/Devices.antt and Wake/Requests.antt: the closures that the handlers of wake/routes.rs and
--     wake/pairing.rs give to `update_wake`; Wake/Callers.antt and Wake/Routes.antt: the handlers.
--     Wake/Sweep.antt is `cleanup`, Wake/Views.antt the lists, Wake/Polling.antt `poll`.
--   Wake/Pairing: wake/pairing.rs, the enrolment of a computer by a phone (State, Proofs, Routes).
--   Common/Codec.antt: crates/rdesk_common/src/bytes_codec.rs. A buffer is the list of its bytes.
--     Common/DeviceId.antt, Common/Config.antt, Common/Password.antt, Common/Platform.antt: the other
--     files of that crate, over the calls of Common/Disk.antt.
--   Crypto/Sha256.antt and its parts Compress and Digest: crates/rdesk_crypto/src/auth.rs, `Sha256`,
--     and session_key.rs, `sha256`; Crypto/Hex.antt, Crypto/Auth.antt, Crypto/SessionKey.antt: the
--     rest of the two files; Crypto/KeyPair.antt: keypair.rs; Crypto/Noise.antt: noise.rs.
--   Net/Stream.antt: crates/rdesk_net/src/quic/stream.rs; Net/Stun.antt, Net/NatDetect.antt and
--     Net/HolePunch.antt: the files of crates/rdesk_net/src/p2p.
--     Net/Endpoint.antt: quic/client.rs and quic/server.rs; Net/Rendezvous.antt: rendezvous/client.rs
--     and relay/client.rs.
--   Core: crates/rdesk_core/src. Lifecycle is session.rs, Sessions the sessions of a process by
--     reference (`Arc<Session>` is a position), Hosting server.rs, Viewing client.rs, Capture and
--     Codec the folders of these names, Input, Chat, Clipboard and FileTransfer the files.
--   Bridge: crates/rdesk_bridge/src. Registry is state.rs; Connection, Controls (session.rs), Settings
--     (settings.rs and device.rs) and Transfers (file_transfer.rs and chat.rs) are its api.
--   Tests: test data, and each theorem at a concrete input.
--
-- Parameters: the time of each step (`now_ms`, milliseconds), the random ids and tokens
-- (`new_token`), `hash_password` and `verify_password` of rdesk_common, the SHA-256 of a token
-- (`digest`), the lower case of Unicode, and whether a write to the disk succeeded (`stored`).
-- The libraries behind the other crates are records of their calls: `Transport` (quinn), `Snow`
-- (snow), `Storage` (the file system and serde_json), `Disk` (std::fs and directories), `Json`
-- (serde_json), `Argon2` (argon2), `Compression` (lz4_flex), `LocalFiles` (tokio::fs) and `Quic`
-- (quinn, rustls and rcgen); what is relied on of them is `IsOrdered`, `IsSnow`, `IsStorage`,
-- `IsDisk`, `IsJson`, `IsArgon2` and `IsCompression`.
--
-- Bounds: times and sizes are natural numbers, far below 2 ^ 64; the counter of the files' bytes is
-- checked against 2 ^ 64 - 1 as the source does. The long poll runs on fuel: with a tick of 15 ms and
-- a deadline of 5 s it is given 335 rounds. A `u32` of SHA-256 is a number below 2 ^ 32 and its sums
-- wrap; its padding is given 64 rounds, and the loops over blocks and attributes as many rounds as
-- there are bytes.
--
-- The poll of wake/routes.rs runs on fuel as well: 51 rounds of a tenth of a second pass its five
-- seconds. The digits of a `u32` are printed with fuel for ten of them.
--
-- Not modelled: the queues of the broadcast channels, `health`, `debug_state`, `main` and the
-- routers, logs and response headers; of the shared crates the sockets and timers, the drawing of
-- keys, and the code that is generated for the protocol; a poisoned lock. A frame is its bytes, and
-- JSON payloads are data with a constructor for each kind of command.
pub mod Prelude
pub mod Map
pub mod Common
pub mod Crypto
pub mod Net
pub mod Wake
pub mod Core
pub mod Bridge
pub mod Server
pub mod Tests

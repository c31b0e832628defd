-- ===== src/Tests/Relay.antt =====
-- The theorems on commands, files and stored accounts, at concrete states.
use rdesk.Prelude.{
  ◌+◌, ◌*◌, ◌≤◌, ◌≡◌, ◌≢◌, refl, text_eq, codes, true, false, some, [], ◌∷◌, arith, length, All,
  is_empty,
}
use rdesk.Map
use rdesk.Server.State.{AppState, FileBlob, PreviewRegistration, new_state, success}
use rdesk.Server.Sessions.{validate_host}
use rdesk.Server.Commands.{poll_host_command, pending, begin_input, clipboard_get, refused}
use rdesk.Server.Commands.Requests.{completes, polls, run}
use rdesk.Server.Commands.Delivery.{poll_host_command-ends}
use rdesk.Server.Files.{safe_file_name, file_host_download, file_download}
use rdesk.Server.Files.Room.{Relay, Event, admits, ends, run-IsAccounted, IsAccounted, reserve_iff}
use rdesk.Server.Files.Room
use rdesk.Server.Files.Names.{safe_file_name-IsPlain, IsPlain}
use rdesk.Server.Files.Delivery.{download_once, by_viewer, fetch_all}
use rdesk.Server.Accounts.{commit_user, persist_users, load_users}
use rdesk.Server.Accounts.Lives.{registers, deletes, change_all, users_stay-IsDurable}
use rdesk.Server.Accounts.Durable.{IsDurable}
use rdesk.Tests.Data.{user, newcomer, with_user, hosting, with_file}

-- The viewer asks for the host's clipboard, the host polls and answers, and answers again.
abbrev asked : AppState
asked =
    run
      (completes 1150 (codes "pc") (codes "host") (codes "c2") refused
        ∷ polls 1200 (codes "pc")
        ∷ [])
      (begin_input 1100 (codes "pc") (codes "viewer") (codes "c1") clipboard_get hosting).0

poll_host_command-ends_example :
    (poll_host_command (λ n. 1000 + n * 15) (λ n s. s) 335 (codes "pc") (codes "host") hosting).1
    ≢ success pending
poll_host_command-ends_example =
    poll_host_command-ends (λ n. 1000 + n * 15) (λ n s. s) (codes "pc") (codes "host") hosting
      (λ n. omega arith)

abbrev empty_relay : Relay
empty_relay = record { state = new_state; held = [] }

run-IsAccounted_example :
    IsAccounted
      (Room.run (admits 50000000 ∷ admits 60000000 ∷ admits 50000000 ∷ ends 0 ∷ []) empty_relay)
run-IsAccounted_example =
    run-IsAccounted (admits 50000000 ∷ admits 60000000 ∷ admits 50000000 ∷ ends 0 ∷ []) empty_relay
      (record { counted = refl; fits = omega arith })

safe_file_name-IsPlain_example :
    All IsPlain (codes "a.txt")
    × (length (codes "a.txt") ≤ 200)
    × (is_empty (codes "a.txt") ≡ false)
    × (codes "a.txt" ≢ codes ".")
    × (codes "a.txt" ≢ codes "..")
unfolding safe_file_name text_eq
safe_file_name-IsPlain_example = safe_file_name-IsPlain (codes "../b/ a.txt") (codes "a.txt") refl

download_once_example :
    let t =
      fetch_all
        (by_viewer 1150 (codes "f1") (codes "viewer") ∷ [])
        (file_host_download 1100 (codes "f1") (codes "pc") (codes "host") with_file).0 in
    ((held : FileBlob) × (Map.get (codes "f1") with_file.file_store ≡ some held)
      × (held.device_id ≡ codes "pc")
      × (held.content ≡ 1 ∷ 2 ∷ []))
    × ((r : PreviewRegistration) × (Map.get (codes "pc") with_file.previews ≡ some r)
        × (r.host_token ≡ codes "host")
        × (1100 ≤ r.updated_at_ms + 30000))
    × ((file_host_download 1200 (codes "f1") (codes "pc") (codes "host") t).1
        ≢ success (1 ∷ 2 ∷ []))
    × ((file_download 1200 (codes "f1") (codes "viewer") t).1 ≢ success (codes "a.txt", 1 ∷ 2 ∷ []))
unfolding file_host_download validate_host Map.get text_eq
download_once_example =
    download_once 1100 1200 (codes "f1") (codes "pc") (codes "host") (codes "pc") (codes "host")
      (codes "viewer") (1 ∷ 2 ∷ []) (1 ∷ 2 ∷ []) (codes "a.txt", 1 ∷ 2 ∷ [])
      (by_viewer 1150 (codes "f1") (codes "viewer") ∷ []) with_file refl

one_user-IsDurable : IsDurable with_user
unfolding Map.values
one_user-IsDurable = record { keyed = (refl, tt); saved = refl }

users_stay-IsDurable_example : IsDurable (
    change_all
      (registers false newcomer ∷ registers true newcomer ∷ deletes false user ∷ [])
      (persist_users true (load_users 100 (user ∷ []) new_state)))
unfolding Map.get persist_users load_users Map.insert text_eq commit_user
users_stay-IsDurable_example =
    users_stay-IsDurable 100 (user ∷ [])
      (registers false newcomer ∷ registers true newcomer ∷ deletes false user ∷ []) new_state tt
      (refl, (refl, (tt, tt)))

-- ===== src/Server/Files/Delivery.antt =====
-- crates/rdesk_server/src/main.rs, `file_host_download` and `file_download`: how a file gets from
-- the relay to its host, and what other requests find afterwards.
use rdesk.Prelude.{
  ℕ, ◌+◌, ◌≤◌, ◌≡◌, ◌≢◌, Text, text_eq, text_eq_iff, text_eq_refl, true, false, none, some, List,
  [], ◌∷◌, arith, Option-cases, inl, inr,
}
use rdesk.Map
use rdesk.Map.Laws.{get-remove}
use rdesk.Server.State.{AppState, FileBlob, PreviewRegistration, success, bare}
use rdesk.Server.Sessions.{validate_host, validate_viewer}
use rdesk.Server.Commands.{end_command}
use rdesk.Server.Files.{file_host_download, file_download, end_relay}

-- What else comes to the relay about its files: a host's download, a viewer's download, or the end
-- of a relay, with the ids and tokens of the request.
pub data Fetch : Type 0 where
  by_host : ℕ → Text → Text → Text → Fetch
  by_viewer : ℕ → Text → Text → Fetch
  relay_over : Text → Text → Fetch

unfoldable pub fetch : Fetch → AppState → AppState
fetch (by_host now file_id device_id host_token) s =
    (file_host_download now file_id device_id host_token s).0
fetch (by_viewer now file_id token) s = (file_download now file_id token s).0
fetch (relay_over file_id command_id) s = (end_relay file_id command_id s).0

unfoldable pub fetch_all : List Fetch → AppState → AppState
unfolding fetch
fetch_all [] s = s
fetch_all (f ∷ fetches) s = fetch_all fetches (fetch f s)

validate_viewer-files :
    (now : ℕ) (device_id token : Text) (s : AppState)
    → (validate_viewer now device_id token s).0.file_store ≡ s.file_store
unfolding validate_viewer
validate_viewer-files now device_id token s = ground arith

end_command-files :
    (command_id : Text) (s : AppState) → (end_command command_id s).0.file_store ≡ s.file_store
unfolding end_command
end_command-files command_id s = ground arith

fetch-gone :
    (j : Text) (f : Fetch) (s : AppState)
    → Map.get j s.file_store ≡ none
    → Map.get j (fetch f s).file_store ≡ none
unfolding fetch file_host_download file_download end_relay
fetch-gone j (by_host now file_id device_id host_token) s gone =
    ground (arith, get-remove j file_id s.file_store)
fetch-gone j (by_viewer now file_id token) s gone =
    elim (Option-cases (Map.get file_id s.file_store)) [
      | inl missing ↦ ground arith
      | inr (blob, found) ↦ ground (arith, validate_viewer-files now blob.device_id token s)
    ]
fetch-gone j (relay_over file_id command_id) s gone = ground (
  arith,
  end_command-files command_id s,
  get-remove j file_id (end_command command_id s).0.file_store,
)

fetch_all-gone :
    (j : Text) (fetches : List Fetch) (s : AppState)
    → Map.get j s.file_store ≡ none
    → Map.get j (fetch_all fetches s).file_store ≡ none
unfolding fetch_all
fetch_all-gone j [] s gone = gone
fetch_all-gone j (f ∷ fetches) s gone = fetch_all-gone j fetches (fetch f s) (fetch-gone j f s gone)

none_downloads :
    (now : ℕ) (file_id device_id host_token token : Text) (again : List ℕ) (named : Text × List ℕ)
    (s : AppState)
    → Map.get file_id s.file_store ≡ none
    → ((file_host_download now file_id device_id host_token s).1 ≢ success again)
      × ((file_download now file_id token s).1 ≢ success named)
unfolding file_host_download file_download
none_downloads now file_id device_id host_token token again named s gone =
    (ground arith, ground arith)

takes :
    (now : ℕ) (file_id device_id host_token : Text) (content : List ℕ) (s : AppState)
    → (file_host_download now file_id device_id host_token s).1 ≡ success content
    → (validate_host now device_id host_token s ≡ true)
      × ((blob : FileBlob) × (Map.get file_id s.file_store ≡ some blob)
          × (blob.device_id ≡ device_id)
          × (blob.content ≡ content))
      × (Map.get file_id (file_host_download now file_id device_id host_token s).0.file_store
          ≡ none)
unfolding file_host_download
takes now file_id device_id host_token content s e =
    elim (Option-cases (Map.get file_id s.file_store)) [
      | inl missing ↦ absurd (ground arith)
      | inr (blob, found) ↦ (
        ground arith,
        ((blob, found, ground (arith, text_eq_iff blob.device_id device_id), ground arith)),
        ground (arith, get-remove file_id file_id s.file_store, text_eq_refl file_id),
      )
    ]

valid_host :
    (now : ℕ) (device_id host_token : Text) (s : AppState)
    → validate_host now device_id host_token s ≡ true
    → (r : PreviewRegistration) × (Map.get device_id s.previews ≡ some r)
      × (r.host_token ≡ host_token)
      × (now ≤ r.updated_at_ms + 30000)
unfolding validate_host
valid_host now device_id host_token s e = elim (Option-cases (Map.get device_id s.previews)) [
  | inl missing ↦ absurd (ground arith)
  | inr (r, found) ↦ (r, found, ground (arith, text_eq_iff r.host_token host_token), ground arith)
]

-- If a host's download succeeds, the relay held the file with that content for that device, and the
-- caller showed the token of the device's registration, which was at most thirty seconds old. Then
-- the file is gone: after any further downloads of any files by hosts and viewers, and any ends of
-- relays, neither a host's nor a viewer's download of that file succeeds, whoever asks and whenever.
pub download_once :
    (now later : ℕ) (file_id device_id host_token other other_token token : Text)
    (content again : List ℕ) (named : Text × List ℕ) (fetches : List Fetch) (s : AppState)
    → (file_host_download now file_id device_id host_token s).1 ≡ success content
    → let t = fetch_all fetches (file_host_download now file_id device_id host_token s).0 in
      ((blob : FileBlob) × (Map.get file_id s.file_store ≡ some blob)
        × (blob.device_id ≡ device_id)
        × (blob.content ≡ content))
      × ((r : PreviewRegistration) × (Map.get device_id s.previews ≡ some r)
          × (r.host_token ≡ host_token)
          × (now ≤ r.updated_at_ms + 30000))
      × ((file_host_download later file_id other other_token t).1 ≢ success again)
      × ((file_download later file_id token t).1 ≢ success named)
download_once now later file_id device_id host_token other other_token token content again named
      fetches s e =
    let (valid, held, gone) = takes now file_id device_id host_token content s e in
    let t = (file_host_download now file_id device_id host_token s).0 in
    let (no_host, no_viewer) =
      none_downloads later file_id other other_token token again named (fetch_all fetches t)
        (fetch_all-gone file_id fetches t gone) in
    (held, valid_host now device_id host_token s valid, no_host, no_viewer)

-- A host that asks for another's file is told that there is none, and the file stays.
pub download_other :
    (now : ℕ) (file_id device_id host_token : Text) (blob : FileBlob) (s : AppState)
    → Map.get file_id s.file_store ≡ some blob
    → text_eq blob.device_id device_id ≡ false
    → validate_host now device_id host_token s ≡ true
    → file_host_download now file_id device_id host_token s ≡ (s, bare 404)
unfolding file_host_download
download_other now file_id device_id host_token blob s found ne valid = ground arith

-- ===== src/Server/Files.antt =====
-- crates/rdesk_server/src/main.rs: files on their way from a viewer to a host. The relay holds a
-- file in memory from its upload until the host has fetched it or the request ends.
pub mod Room
pub mod Names
pub mod Delivery
use rdesk.Prelude.{
  ℕ, ◌+◌, ◌-◌, Text, text_eq, codes, trim, Bool, true, false, ◌&&◌, ◌||◌, not, Option, none, some,
  List, [], ◌∷◌, ltb, leb, ◌==◌, if◌then◌else◌, is_empty, keep, take, length,
}
use rdesk.Map
use rdesk.Server.State.{
  AppState, Response, success, failure, bare, file, file_max_bytes, file_store_max_bytes,
}
use rdesk.Server.Sessions.{validate_viewer, validate_host}
use rdesk.Server.Commands.{begin_command, end_command}

-- `rsplit(['/', '\\']).next()`: what stands behind the last separator.
abbrev pub is_separator : ℕ → Bool
is_separator c = c == b'/' || c == 0x5c

unfoldable pub has_separator : Text → Bool
has_separator [] = false
has_separator (c ∷ s) = is_separator c || has_separator s

unfoldable pub base_name : Text → Text
unfolding has_separator
base_name [] = []
base_name (c ∷ s) =
    let base = base_name s in if is_separator c || has_separator s then base else c ∷ s

-- `char::is_control`, the category Cc of Unicode.
abbrev pub is_control : ℕ → Bool
is_control c = ltb c 0x20 || (leb 0x7f c && leb c 0x9f)

abbrev pub clean : Text → Text
clean raw = trim (take 200 (keep (λ c. not (is_control c)) (base_name raw)))

unfoldable pub safe_file_name : Text → Option Text
unfolding base_name trim
safe_file_name raw =
    if is_empty (clean raw) || text_eq (clean raw) (codes ".") || text_eq (clean raw) (codes "..")
    then none
    else some (clean raw)

abbrev pub usize_max : ℕ
usize_max = 18446744073709551615

-- `checked_add`, and the limit on the sum.
unfoldable pub try_reserve : ℕ → ℕ → Option ℕ
try_reserve held bytes =
    if leb (held + bytes) usize_max && leb (held + bytes) file_store_max_bytes
    then some (held + bytes)
    else none

-- `FileReservation::try_new`.
unfoldable pub reserve : ℕ → AppState → AppState × Bool
unfolding try_reserve
reserve bytes s = elim (try_reserve s.file_bytes bytes) [
  | none ↦ (s, false)
  | some total ↦ (record s { file_bytes = total }, true)
]

-- `FileReservation::drop`.
unfoldable pub release : ℕ → AppState → AppState
release bytes s = record s { file_bytes = s.file_bytes - bytes }

pub record FileUploadQuery : Type 0 where
  pub device_id : Text
  pub token : Text
  pub filename : Text
  pub remote_path : Text

-- `admit_file`. The Content-Length header is the number that it parses to, if it is there and
-- does. The answer is the name and the room that is reserved.
unfoldable pub admit_file :
    ℕ → FileUploadQuery → Option ℕ → AppState → AppState × Response (Text × ℕ)
unfolding reserve
admit_file now query content_length s =
    let (s1, valid) = validate_viewer now query.device_id query.token s in
    if valid
    then elim (safe_file_name query.filename) [
      | none ↦ (s1, failure 400 (codes "文件名无效"))
      | some filename ↦ elim content_length [
        | none ↦ (s1, failure 411 (codes "缺少文件大小"))
        | some size ↦
            if ltb file_max_bytes size
            then (s1, failure 413 (codes "文件超过中转上限"))
            else (let (s2, reserved) = reserve size s1 in
                if reserved
                then (s2, success (filename, size))
                else (s2, failure 507 (codes "中转空间不足，请稍后再试")))
      ]
    ]
    else (s1, bare 401)

-- `relay_file` up to its wait: the file is held, and the host is told of it. Where the command is
-- refused the request ends, and so the file is dropped (`HeldFile`).
unfoldable pub begin_relay :
    ℕ → Text → Text → FileUploadQuery → Text → List ℕ → AppState → AppState × Response (Unit {0})
unfolding begin_command
begin_relay now file_id command_id query filename body s =
    let held = record s {
      file_store =
          Map.insert file_id
            (record {
              content = body;
              filename = filename;
              created_at_ms = now;
              device_id = query.device_id;
            })
            s.file_store;
    } in
    let (s1, begun) =
      begin_command now query.device_id query.token command_id (codes "file_receive")
        (file file_id filename (length body)) held in
    elim begun [
      | success _ ↦ (s1, success tt)
      | failure status message ↦
          (record s1 { file_store = Map.remove file_id s1.file_store }, failure status message)
    ]

-- The end of `relay_file`: the host's answer, and the file is dropped however it ended.
unfoldable pub end_relay : Text → Text → AppState → AppState × Response (Bool × Option Text)
unfolding end_command
end_relay file_id command_id s =
    let (s1, outcome) = end_command command_id s in
    let s2 = record s1 { file_store = Map.remove file_id s1.file_store } in
    elim outcome [
      | success r ↦ (s2, success (r.ok, r.text))
      | failure status message ↦ (s2, failure status message)
    ]

-- `file_upload` from its body on: the body must have the length that was declared. Where it ends
-- here, the reservation is dropped.
unfoldable pub begin_upload :
    ℕ
    → Text
    → Text
    → FileUploadQuery
    → Text
    → ℕ
    → List ℕ
    → AppState
    → AppState × Response (Unit {0})
unfolding begin_relay release
begin_upload now file_id command_id query filename reserved body s =
    if length body == reserved
    then (let (s1, begun) = begin_relay now file_id command_id query filename body s in
        elim begun [
          | success _ ↦ (s1, success tt)
          | failure status message ↦ (release reserved s1, failure status message)
        ])
    else (release reserved s, failure 400 (codes "文件没有传完"))

unfoldable pub end_upload : Text → Text → ℕ → AppState → AppState × Response (Bool × Option Text)
unfolding end_relay release
end_upload file_id command_id reserved s =
    let (s1, outcome) = end_relay file_id command_id s in (release reserved s1, outcome)

unfoldable pub file_host_download : ℕ → Text → Text → Text → AppState → AppState × Response (List ℕ)
file_host_download now file_id device_id host_token s =
    if validate_host now device_id host_token s
    then elim (Map.get file_id s.file_store) [
      | none ↦ (s, bare 404)
      | some blob ↦
          if text_eq blob.device_id device_id
          then (record s { file_store = Map.remove file_id s.file_store }, success blob.content)
          else (s, bare 404)
    ]
    else (s, bare 401)

-- The answer is the name and the content.
unfoldable pub file_download : ℕ → Text → Text → AppState → AppState × Response (Text × List ℕ)
file_download now file_id token s = elim (Map.get file_id s.file_store) [
  | none ↦ (s, bare 404)
  | some blob ↦
      let (s', valid) = validate_viewer now blob.device_id token s in
      if valid then (s', success (blob.filename, blob.content)) else (s', bare 401)
]

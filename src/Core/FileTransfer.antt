-- ===== src/Core/FileTransfer.antt =====
-- crates/rdesk_core/src/file_transfer.rs: the local side of a transfer.
--
-- The file system stands outside: a `LocalFiles` has the calls of `tokio::fs` and of `Path`, for
-- paths as texts. A directory is read as the results of the calls of `next_entry`.
pub mod Listing
use Prim.Native.String.{String}
use rdesk.Prelude.{
  ℕ, Bool, true, false, not, ltb, ◌==◌, if◌then◌else◌, Option, none, some, List, [], ◌∷◌, ◌++◌,
  Text, codes, is_empty,
}
use rdesk.Common.Disk.{
  Result, ok, err, Io, pure, fail, reading, writing, ◌>>=◌, ◌>>◌, create_dir, write, empty_session,
  empty_remote, stat, not_a_file, list,
}

-- `modified` is none where the platform has no such time, and then none where it is before 1970.
pub record Metadata : Type 0 where
  pub is_dir : Bool
  pub is_file : Bool
  pub len : ℕ
  pub modified : Option (Option ℕ)

pub record DirEntry : Type 0 where
  pub file_name : Text
  pub metadata : Option Metadata

pub record LocalFiles : Type 1 where
  pub FileSystem : Type 0
  pub read_dir : Text → FileSystem → Option (List (Option DirEntry))
  pub metadata_of : Text → FileSystem → Option Metadata
  pub parent : Text → Option Text
  pub create_dir_all : Text → FileSystem → FileSystem × Bool
  pub write : Text → Text → FileSystem → FileSystem × Bool

pub record FileEntry : Type 0 where
  pub name : Text
  pub is_dir : Bool
  pub size : ℕ
  pub modified : ℕ

abbrev seconds : Option (Option ℕ) → ℕ
seconds (some (some n)) = n
seconds (some none) = 0
seconds none = 0

unfoldable pub entry_of : Text → Metadata → FileEntry
entry_of file_name metadata = record {
  name = file_name;
  is_dir = metadata.is_dir;
  size = metadata.len;
  modified = seconds metadata.modified;
}

-- The loop: the first call that fails ends it.
unfoldable pub collect : List (Option DirEntry) → Option (List FileEntry)
unfolding entry_of
collect [] = some []
collect (none ∷ entries) = none
collect (some entry ∷ entries) =
    let rest = collect entries in
    elim entry.metadata [
      | none ↦ none
      | some metadata ↦ elim rest [
        | none ↦ none
        | some out ↦ some (entry_of entry.file_name metadata ∷ out)
      ]
    ]

-- `cmp` on names: at most.
unfoldable pub name_le : Text → Text → Bool
name_le [] b = true
name_le (x ∷ a) [] = false
name_le (x ∷ a) (y ∷ b) =
    let rest = name_le a b in if ltb x y then true else if x == y then rest else false

-- `sort_by`, which is stable.
unfoldable pub insert_entry : FileEntry → List FileEntry → List FileEntry
unfolding name_le
insert_entry e [] = e ∷ []
insert_entry e (f ∷ entries) =
    if name_le e.name f.name then e ∷ f ∷ entries else f ∷ insert_entry e entries

unfoldable pub sort_entries : List FileEntry → List FileEntry
unfolding insert_entry
sort_entries [] = []
sort_entries (e ∷ entries) = insert_entry e (sort_entries entries)

module _ (L : LocalFiles) where
  unfoldable pub list_directory : Text → L.FileSystem → Option (List FileEntry)
  unfolding collect sort_entries
  list_directory path fs = elim (L.read_dir path fs) [
    | none ↦ none
    | some entries ↦ elim (collect entries) [ none ↦ none | some out ↦ some (sort_entries out) ]
  ]

  unfoldable pub send_file : Text → Text → Text → Io L.FileSystem (Unit {0})
  send_file session_id local_path remote_path =
      if is_empty session_id then fail empty_session else do
        metadata ← reading stat (L.metadata_of local_path)
        if not metadata.is_file
            then fail not_a_file
            else if is_empty remote_path
            then fail empty_remote
            else pure tt

  abbrev placeholder : Text → Text → Text
  placeholder session_id remote_path =
      codes "rdesk stub download\nsession="
      ++ (session_id ++ (codes "\nremote_path=" ++ (remote_path ++ codes "\n")))

  abbrev make_parent : Text → Io L.FileSystem (Unit {0})
  make_parent local_path = elim (L.parent local_path) [
    | none ↦ pure tt
    | some dir ↦ if is_empty dir then pure tt else writing create_dir (L.create_dir_all dir)
  ]

  unfoldable pub receive_file : Text → Text → Text → Io L.FileSystem (Unit {0})
  receive_file session_id remote_path local_path =
      if is_empty session_id
      then fail empty_session
      else if is_empty remote_path
      then fail empty_remote
      else (make_parent local_path
          >> writing write (L.write local_path (placeholder session_id remote_path)))

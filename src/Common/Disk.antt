-- ===== src/Common/Disk.antt =====
-- The file system and the directories of the platform, as crates/rdesk_common/src/device_id.rs,
-- config.rs and crates/rdesk_core/src/file_transfer.rs call them, and fallible calls in sequence.
--
-- They stand outside: a `Disk` has the calls. A call that writes leaves a next state whether or not
-- it succeeds.
pub mod Directory
use rdesk.Prelude.{Bool, true, false, not, if◌then◌else◌, Option, none, some, Text, ◌≡◌}

pub record Disk : Type 1 where
  pub FileSystem : Type 0
  pub Location : Type 0
  pub data_dir : Option Location
  pub config_dir : Option Location
  pub join : Location → Text → Location
  pub exists : Location → FileSystem → Bool
  pub create_dir_all : Location → FileSystem → FileSystem × Bool
  pub read_to_string : Location → FileSystem → Option Text
  pub write : Location → Text → FileSystem → FileSystem × Bool

-- What failed.
pub data Failure : Type 0 where
  no_directory create_dir read write parse serialise hash : Failure
  unknown_session not_found not_connected empty_session stat not_a_file empty_remote : Failure
  list not_implemented : Failure

pub data Result {ℓ} (A : Type ℓ) : Type ℓ where
  ok : A → Result A
  err : Failure → Result A

abbrev pub Io {ℓ} : Type 0 → Type ℓ → Type ℓ
Io S A = S → S × Result A

infixl 5 ◌>>=◌ ◌>>◌
abbrev pub ◌>>=◌ {ℓ κ} : {S : Type 0} {A : Type ℓ} {B : Type κ} → Io S A → (A → Io S B) → Io S B
◌>>=◌ m f s = let (s', r) = m s in elim r [ ok a ↦ f a s' | err e ↦ (s', err e) ]

abbrev pub ◌>>◌ {ℓ κ} : {S : Type 0} {A : Type ℓ} {B : Type κ} → Io S A → Io S B → Io S B
m >> k = m >>= λ _. k

abbrev pub pure {ℓ} : {S : Type 0} {A : Type ℓ} → A → Io S A
pure a s = (s, ok a)

abbrev pub fail {ℓ} : {S : Type 0} {A : Type ℓ} → Failure → Io S A
fail e s = (s, err e)

-- `context` on what is read, and on a write.
abbrev pub reading {ℓ} : {S : Type 0} {A : Type ℓ} → Failure → (S → Option A) → Io S A
reading e f s = elim (f s) [ none ↦ (s, err e) | some a ↦ (s, ok a) ]

abbrev pub writing : {S : Type 0} → Failure → (S → S × Bool) → Io S (Unit {0})
writing e f s = let (s', done) = f s in elim done [ true ↦ (s', ok tt) | false ↦ (s', err e) ]

-- A directory that the platform names, made where it is missing.
unfoldable pub directory : (D : Disk) → Option D.Location → Io D.FileSystem D.Location
directory D none fs = fail no_directory fs
directory D (some dir) fs =
    if not (D.exists dir fs)
    then (writing create_dir (D.create_dir_all dir) >> pure dir) fs
    else pure dir fs

-- What the calls document: what is written is there and is read, what was there stays, and what is
-- created is there.
pub record IsDisk (D : Disk) : Type 0 where
  pub read-write :
      (path : D.Location) (text : Text) (fs : D.FileSystem)
      → (D.write path text fs).1 ≡ true
      → D.read_to_string path (D.write path text fs).0 ≡ some text
  pub exists-write :
      (path : D.Location) (text : Text) (fs : D.FileSystem)
      → (D.write path text fs).1 ≡ true
      → D.exists path (D.write path text fs).0 ≡ true
  pub exists-write_other :
      (path other : D.Location) (text : Text) (fs : D.FileSystem)
      → D.exists other fs ≡ true
      → D.exists other (D.write path text fs).0 ≡ true
  pub exists-create :
      (dir : D.Location) (fs : D.FileSystem)
      → (D.create_dir_all dir fs).1 ≡ true
      → D.exists dir (D.create_dir_all dir fs).0 ≡ true

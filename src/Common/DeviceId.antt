-- ===== src/Common/DeviceId.antt =====
-- crates/rdesk_common/src/device_id.rs: the identifier of an installation.
--
-- The number that `gen_range` draws is a parameter.
pub mod Numerals
pub mod Storage
use Prim.Native.String.{String}
use rdesk.Prelude.{
  ℕ, zero, suc, ◌+◌, ◌/◌, ◌%◌, Bool, true, false, ◌&&◌, not, ltb, leb, ◌==◌, if◌then◌else◌, Option,
  none, some, List, [], ◌∷◌, ◌++◌, Text, codes, byte_len, trim, all,
}
use rdesk.Common.Disk.{Disk, Io, pure, reading, writing, ◌>>=◌, ◌>>◌, read, write, directory}

abbrev pub device_id_file : Text
device_id_file = codes "device_id"

abbrev pub device_id_length : ℕ
device_id_length = 9

-- The decimal digits that `to_string` prints: ten are enough for a `u32`.
unfoldable pub decimal : ℕ → ℕ → Text
decimal zero n = []
decimal (suc fuel) n =
    let front = decimal fuel (n / 10) in
    if ltb n 10 then (b'0' + n) ∷ [] else front ++ (b'0' + n % 10) ∷ []

unfoldable pub generate_device_id : ℕ → Text
unfolding decimal
generate_device_id drawn = decimal 10 drawn

unfoldable pub is_ascii_digit : ℕ → Bool
is_ascii_digit c = leb b'0' c && leb c b'9'

unfoldable pub starts_nonzero : Text → Bool
unfolding is_ascii_digit
starts_nonzero [] = false
starts_nonzero (c ∷ s) = is_ascii_digit c && not (c == b'0')

unfoldable pub validate_device_id : Text → Bool
unfolding starts_nonzero is_ascii_digit byte_len
validate_device_id id =
    byte_len id == device_id_length && starts_nonzero id && all is_ascii_digit id

module _ (D : Disk) where
  unfoldable pub device_id_path : Io D.FileSystem D.Location
  unfolding directory
  device_id_path = do dir ← directory D D.data_dir; pure (D.join dir device_id_file)

  -- A file that is there.
  unfoldable pub checked : D.Location → Io D.FileSystem (Option Text)
  unfolding validate_device_id trim
  checked path = do
    text ← reading read (D.read_to_string path)
    let id = trim text
    if validate_device_id id then pure (some id) else pure none

  unfoldable pub load_device_id : Io D.FileSystem (Option Text)
  unfolding device_id_path checked
  load_device_id = do
    path ← device_id_path
    there ← λ fs. pure (D.exists path fs) fs
    if not there then pure none else checked path

  unfoldable pub save_device_id : Text → Io D.FileSystem (Unit {0})
  unfolding device_id_path
  save_device_id id = do path ← device_id_path; writing write (D.write path id)

  unfoldable pub get_or_create_device_id : ℕ → Io D.FileSystem Text
  unfolding load_device_id save_device_id generate_device_id
  get_or_create_device_id drawn = do
    loaded ← load_device_id
    let id = generate_device_id drawn
    elim loaded [ some there ↦ pure there | none ↦ save_device_id id >> pure id ]

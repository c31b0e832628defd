-- ===== src/Common/DeviceId/Storage.antt =====
-- crates/rdesk_common/src/device_id.rs: the identifier across restarts.
use rdesk.Prelude.{
  ℕ, ◌≤◌, ◌≡◌, refl, sym, true, Option, none, some, Text, trim, arith, Bool-cases, all, [], ◌∷◌,
  trim_end, trim_start, cons_unless_blank, is_whitespace, Option-cases, inl, inr, ◌⊎◌,
}
use rdesk.Common.Disk.{Disk, IsDisk, Result, ok, err}
use rdesk.Common.Disk.Directory.{join_ready, directory_again}
use rdesk.Common.DeviceId.Numerals.{validate_device_id-generate_device_id}
use rdesk.Common.DeviceId.{
  is_ascii_digit, device_id_file, validate_device_id, generate_device_id, device_id_path, checked,
  load_device_id, save_device_id, get_or_create_device_id,
}

trim_end_digits : (text : Text) → all is_ascii_digit text ≡ true → trim_end text ≡ text
unfolding trim_end cons_unless_blank is_whitespace is_ascii_digit
trim_end_digits [] e = refl
trim_end_digits (c ∷ []) e = ground arith
trim_end_digits (c ∷ d ∷ text) e = ground (arith, trim_end_digits (d ∷ text))

trim_digits : (text : Text) → all is_ascii_digit text ≡ true → trim text ≡ text
unfolding trim trim_start is_whitespace is_ascii_digit
trim_digits [] e = refl
trim_digits (c ∷ text) e = ground (arith, trim_end_digits (c ∷ text))

trim_valid : (id : Text) → validate_device_id id ≡ true → trim id ≡ id
unfolding validate_device_id
trim_valid id e = trim_digits id (ground arith)

module _ (D : Disk) (is : IsDisk D) where
  path_ready :
      (fs fs' : D.FileSystem) (path : D.Location)
      → device_id_path D fs ≡ (fs', ok path)
      → (dir : D.Location) × (D.data_dir ≡ some dir)
        × (path ≡ D.join dir device_id_file)
        × (D.exists dir fs' ≡ true)
  unfolding device_id_path
  path_ready fs fs' path e = join_ready D is D.data_dir device_id_file fs fs' path e

  path_again :
      (fs : D.FileSystem) (dir : D.Location)
      → D.data_dir ≡ some dir
      → D.exists dir fs ≡ true
      → device_id_path D fs ≡ (fs, ok (D.join dir device_id_file))
  unfolding device_id_path
  path_again fs dir d x = ground (arith, directory_again D fs dir x)

  load_again :
      (fs : D.FileSystem) (dir : D.Location) (text : Text)
      → D.data_dir ≡ some dir
      → D.exists dir fs ≡ true
      → D.exists (D.join dir device_id_file) fs ≡ true
      → D.read_to_string (D.join dir device_id_file) fs ≡ some text
      → validate_device_id (trim text) ≡ true
      → load_device_id D fs ≡ (fs, ok (some (trim text)))
  unfolding load_device_id checked
  load_again fs dir text d x there t v = ground (arith, path_again fs dir d x)

  checked-some :
      (fs fs' : D.FileSystem) (path : D.Location) (id : Text)
      → checked D path fs ≡ (fs', ok (some id))
      → (fs ≡ fs')
        × (text : Text) × (D.read_to_string path fs ≡ some text)
        × (trim text ≡ id)
        × (validate_device_id id ≡ true)
  unfolding checked
  checked-some fs fs' path id e = elim (Option-cases (D.read_to_string path fs)) [
    | inl n ↦ absurd (ground arith)
    | inr (text, t) ↦ elim (Bool-cases (validate_device_id (trim text))) [
      | inl v ↦ (ground arith, text, t, ground arith, ground arith)
      | inr v ↦ absurd (ground arith)
    ]
  ]

  checked-none :
      (fs fs' : D.FileSystem) (path : D.Location) → checked D path fs ≡ (fs', ok none) → fs ≡ fs'
  unfolding checked
  checked-none fs fs' path e = ground arith

  -- What a call of `device_id_path` gave, in the parts that the callers go on with.
  loaded_path :
      (fs fs' : D.FileSystem) (loaded : Option Text)
      → load_device_id D fs ≡ (fs', ok loaded)
      → (between : D.FileSystem) × (path : D.Location) × (device_id_path D fs ≡ (between, ok path))
        × ((D.exists path between ≡ true) × (checked D path between ≡ (fs', ok loaded))
            ⊎ (between ≡ fs') × (loaded ≡ none))
  unfolding load_device_id
  loaded_path fs fs' loaded e = go (device_id_path D fs) refl
    where
      go :
          (p : D.FileSystem × Result D.Location)
          → device_id_path D fs ≡ p
          → (between : D.FileSystem) × (path : D.Location) × (device_id_path D fs
              ≡ (between, ok path))
            × ((D.exists path between ≡ true) × (checked D path between ≡ (fs', ok loaded))
                ⊎ (between ≡ fs') × (loaded ≡ none))
      go (between, err x) d = absurd (ground arith)
      go (between, ok path) d = elim (Bool-cases (D.exists path between)) [
        | inl x ↦ (between, path, d, inl (x, ground arith))
        | inr x ↦ (between, path, d, inr (ground arith, ground arith))
      ]

  load_some :
      (fs fs' : D.FileSystem) (id : Text)
      → load_device_id D fs ≡ (fs', ok (some id))
      → load_device_id D fs' ≡ (fs', ok (some id))
  load_some fs fs' id e =
      let (between, path, d, r) = loaded_path fs fs' (some id) e in
      let (dir, dd, named, there) = path_ready fs between path d in
      elim r [
        | inl (x, c) ↦
            let (same, text, t, trimmed, v) = checked-some between fs' path id c in
            let again =
              load_again fs' dir text dd (rw same at there) (rw (named, same) at x)
                (rw (named, same) at t) (rw (sym trimmed) at v) in
            rw trimmed at again
        | inr (same, n) ↦ absurd (cc n)
      ]

  load_none :
      (fs fs' : D.FileSystem)
      → load_device_id D fs ≡ (fs', ok none)
      → (dir : D.Location) × (D.data_dir ≡ some dir) × (D.exists dir fs' ≡ true)
  load_none fs fs' e =
      let (between, path, d, r) = loaded_path fs fs' none e in
      let (dir, dd, named, there) = path_ready fs between path d in
      elim r [
        | inl (x, c) ↦ (dir, dd, rw (checked-none between fs' path c) at there)
        | inr (same, n) ↦ (dir, dd, rw same at there)
      ]

  save_lem :
      (fs fs' : D.FileSystem) (dir : D.Location) (id : Text)
      → D.data_dir ≡ some dir
      → D.exists dir fs ≡ true
      → save_device_id D id fs ≡ (fs', ok tt)
      → (D.exists dir fs' ≡ true)
        × (D.exists (D.join dir device_id_file) fs' ≡ true)
        × (D.read_to_string (D.join dir device_id_file) fs' ≡ some id)
  unfolding save_device_id
  save_lem fs fs' dir id d x e =
      let path = D.join dir device_id_file in
      let p = path_again fs dir d x in
      let done : (D.write path id fs).1 ≡ true = ground arith in
      let same : (D.write path id fs).0 ≡ fs' = ground arith in
      (
        rw same at (is.exists-write_other path dir id fs x),
        rw same at (is.exists-write path id fs done),
        rw same at (is.read-write path id fs done),
      )

  -- If the file system behaves as `IsDisk` says, and the number drawn is in its range, then an
  -- identifier that was returned is returned again, whatever number the next call draws.
  pub get_or_create_again :
      (drawn next : ℕ) (id : Text) (fs fs' : D.FileSystem)
      → 100000000 ≤ drawn
      → drawn ≤ 999999999
      → get_or_create_device_id D drawn fs ≡ (fs', ok id)
      → get_or_create_device_id D next fs' ≡ (fs', ok id)
  unfolding get_or_create_device_id
  get_or_create_again drawn next id fs fs' low high e = go (load_device_id D fs) refl
    where
      go :
          (p : D.FileSystem × Result (Option Text))
          → load_device_id D fs ≡ p
          → get_or_create_device_id D next fs' ≡ (fs', ok id)
      go (between, err x) l = absurd (ground arith)
      go (between, ok (some there)) l = let again = load_some fs between there l in ground arith
      go (between, ok none) l =
          let made = generate_device_id drawn in
          let v = (validate_device_id-generate_device_id drawn low high).0 in
          let (dir, dd, there) = load_none fs between l in
          let saved : save_device_id D made between ≡ (fs', ok tt) = ground arith in
          let same : made ≡ id = ground arith in
          let (there', x, t) = save_lem between fs' dir made dd there saved in
          let trimmed = trim_valid made v in
          let again = load_again fs' dir made dd there' x t (rw trimmed v) in
          let kept : load_device_id D fs' ≡ (fs', ok (some id)) = rw (trimmed, same) at again in
          ground arith

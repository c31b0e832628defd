-- ===== src/Common/Disk/Directory.antt =====
-- The directory that `device_id_path` and `config_dir` make, before and after.
use rdesk.Prelude.{refl, ◌≡◌, true, Option, none, some, arith, Bool-cases, inl, inr, Text}
use rdesk.Common.Disk.{Disk, IsDisk, Result, ok, err, directory, pure, ◌>>=◌}

module _ (D : Disk) where
  pub directory_ready :
      IsDisk D
      → (o : Option D.Location) (fs fs' : D.FileSystem) (dir : D.Location)
      → directory D o fs ≡ (fs', ok dir)
      → (o ≡ some dir) × (D.exists dir fs' ≡ true)
  unfolding directory
  directory_ready is none fs fs' dir e = absurd (ground arith)
  directory_ready is (some d) fs fs' dir e = elim (Bool-cases (D.exists d fs)) [
    | inl x ↦ (ground arith, ground arith)
    | inr x ↦ elim (Bool-cases (D.create_dir_all d fs).1) [
      | inl c ↦
          let named : d ≡ dir = ground arith in
          let same : (D.create_dir_all d fs).0 ≡ fs' = ground arith in
          (ground arith, rw (same, named) at (is.exists-create d fs c))
      | inr c ↦ absurd (ground arith)
    ]
  ]

  pub directory_again :
      (fs : D.FileSystem) (dir : D.Location)
      → D.exists dir fs ≡ true
      → directory D (some dir) fs ≡ (fs, ok dir)
  unfolding directory
  directory_again fs dir x = ground arith

  -- The path of a file in the directory: what `device_id_path` and `config_path` return.
  pub join_ready :
      IsDisk D
      → (o : Option D.Location) (name : Text) (fs fs' : D.FileSystem) (path : D.Location)
      → (directory D o >>= λ dir. pure (D.join dir name)) fs ≡ (fs', ok path)
      → (dir : D.Location) × (o ≡ some dir) × (path ≡ D.join dir name) × (D.exists dir fs' ≡ true)
  join_ready is o name fs fs' path e = go (directory D o fs) refl
    where
      go :
          (p : D.FileSystem × Result D.Location)
          → directory D o fs ≡ p
          → (dir : D.Location) × (o ≡ some dir)
            × (path ≡ D.join dir name)
            × (D.exists dir fs' ≡ true)
      go (between, err x) d = absurd (ground arith)
      go (between, ok dir) d =
          let (named, there) = directory_ready is o fs between dir d in
          let same : between ≡ fs' = ground arith in (dir, named, ground arith, rw same at there)

-- ===== src/Core/FileTransfer/Listing.antt =====
-- crates/rdesk_core/src/file_transfer.rs: what is listed, and in which order.
use rdesk.Prelude.{
  ◌+◌, ◌≡◌, refl, ap, ◌∙◌, Bool, true, false, Option, some, List, [], ◌∷◌, arith, Text, count,
  Option-cases, inl, inr, if◌then◌else◌,
}
use rdesk.Core.FileTransfer.{
  DirEntry, LocalFiles, FileEntry, collect, name_le, insert_entry, sort_entries, list_directory,
}

-- Each name is at most the next one.
abbrev pub IsOrdered : List FileEntry → Type 0
IsOrdered [] = Unit
IsOrdered (e ∷ []) = Unit
IsOrdered (e ∷ f ∷ entries) = (name_le e.name f.name ≡ true) × IsOrdered (f ∷ entries)

name_le_total : (a b : Text) → name_le a b ≡ false → name_le b a ≡ true
unfolding name_le
name_le_total [] b h = absurd (ground arith)
name_le_total (x ∷ a) [] h = refl
name_le_total (x ∷ a) (y ∷ b) h = ground (arith, name_le_total a b)

insert_entry-IsOrdered :
    (e : FileEntry) (entries : List FileEntry)
    → IsOrdered entries
    → IsOrdered (insert_entry e entries)
unfolding insert_entry
insert_entry-IsOrdered e [] h = tt
insert_entry-IsOrdered e (f ∷ []) h = go (name_le e.name f.name) refl
  where
    go : (b : Bool) → name_le e.name f.name ≡ b → IsOrdered (if b then e ∷ f ∷ [] else f ∷ e ∷ [])
    go true p = (p, tt)
    go false p = (name_le_total e.name f.name p, tt)
insert_entry-IsOrdered e (f ∷ g ∷ entries) h =
    go (name_le e.name f.name) (name_le e.name g.name) refl
      (insert_entry-IsOrdered e (g ∷ entries) h.1)
  where
    go :
        (b c : Bool)
        → name_le e.name f.name ≡ b
        → IsOrdered (if c then e ∷ g ∷ entries else g ∷ insert_entry e entries)
        → IsOrdered (
            if b
            then e ∷ f ∷ g ∷ entries
            else f ∷ (if c then e ∷ g ∷ entries else g ∷ insert_entry e entries))
    go true c p rest = (p, h)
    go false true p rest = (name_le_total e.name f.name p, rest)
    go false false p rest = (h.0, rest)

sort_entries-IsOrdered : (entries : List FileEntry) → IsOrdered (sort_entries entries)
unfolding sort_entries
sort_entries-IsOrdered [] = tt
sort_entries-IsOrdered (e ∷ entries) =
    insert_entry-IsOrdered e (sort_entries entries) (sort_entries-IsOrdered entries)

count-insert :
    (p : FileEntry → Bool) (e : FileEntry) (entries : List FileEntry)
    → count p (insert_entry e entries) ≡ count p (e ∷ entries)
unfolding insert_entry
count-insert p e [] = refl
count-insert p e (f ∷ entries) = ground (arith, count-insert p e entries)

count-sort :
    (p : FileEntry → Bool) (entries : List FileEntry)
    → count p (sort_entries entries) ≡ count p entries
unfolding sort_entries
count-sort p [] = refl
count-sort p (e ∷ entries) =
    count-insert p e (sort_entries entries)
    ∙ ap (λ n. (if p e then 1 else 0) + n) (count-sort p entries)

-- A listing that succeeds has what the directory was read as, each entry as often as it was read,
-- in the order of the names.
pub list_directory_lem :
    (L : LocalFiles) (path : Text) (fs : L.FileSystem) (out : List FileEntry)
    → list_directory L path fs ≡ some out
    → (entries : List (Option DirEntry)) × (found : List FileEntry) × (L.read_dir path fs
        ≡ some entries)
      × (collect entries ≡ some found)
      × IsOrdered out
      × ((p : FileEntry → Bool) → count p out ≡ count p found)
unfolding list_directory
list_directory_lem L path fs out e = elim (Option-cases (L.read_dir path fs)) [
  | inl n ↦ absurd (ground arith)
  | inr (entries, r) ↦ elim (Option-cases (collect entries)) [
    | inl n ↦ absurd (ground arith)
    | inr (found, c) ↦
        let sorted : sort_entries found ≡ out = ground arith in
        (
          entries,
          found,
          r,
          c,
          rw sorted at (sort_entries-IsOrdered found),
          λ p. rw sorted at (count-sort p found),
        )
  ]
]

-- ===== src/Server/Files/Names.antt =====
-- crates/rdesk_server/src/main.rs, `safe_file_name`: the names that incoming files are saved under.
use rdesk.Prelude.{
  ℕ, suc, zero, ◌≤◌, ◌≡◌, ◌≢◌, refl, Text, text_eq_iff, codes, false, not, ◌||◌, some, [], ◌∷◌,
  arith, All, keep, take, trim, trim_start, trim_end, cons_unless_blank, is_empty, length,
  length-take, Bool-cases, inl, inr,
}
use rdesk.Server.Files.{safe_file_name, base_name, has_separator, is_separator, is_control, clean}

-- Neither a separator nor a control character.
abbrev pub IsPlain : ℕ → Type 0
IsPlain c = (is_separator c || is_control c) ≡ false

abbrev IsJoined : ℕ → Type 0
IsJoined c = is_separator c ≡ false

base_of_no_separator : (s : Text) → has_separator s ≡ false → base_name s ≡ s
unfolding base_name has_separator
base_of_no_separator [] h = refl
base_of_no_separator (c ∷ s) h = ground (arith, base_of_no_separator s)

All-of_no_separator : (s : Text) → has_separator s ≡ false → All IsJoined s
unfolding has_separator
All-of_no_separator [] h = tt
All-of_no_separator (c ∷ s) h = (ground arith, All-of_no_separator s (ground arith))

base_name-IsJoined : (s : Text) → All IsJoined (base_name s)
unfolding base_name has_separator
base_name-IsJoined [] = tt
base_name-IsJoined (c ∷ s) = elim (Bool-cases (is_separator c || has_separator s)) [
  | inl more ↦ rw (more, base_name) (base_name-IsJoined s)
  | inr last ↦ rw (last, base_name) (ground arith, All-of_no_separator s (ground arith))
]

keep-IsPlain : (s : Text) → All IsJoined s → All IsPlain (keep (λ c. not (is_control c)) s)
keep-IsPlain [] h = tt
keep-IsPlain (c ∷ s) h = ground (arith, keep-IsPlain s h.1)

module _ (P : ℕ → Type 0) where
  take-All : (n : ℕ) (s : Text) → All P s → All P (take n s)
  take-All zero s h = tt
  take-All (suc n) [] h = tt
  take-All (suc n) (c ∷ s) h = (h.0, take-All n s h.1)

  trim_start-All : (s : Text) → All P s → All P (trim_start s)
  unfolding trim_start
  trim_start-All [] h = tt
  trim_start-All (c ∷ s) h = ground (arith, trim_start-All s h.1)

  blank-All : (c : ℕ) (s : Text) → P c → All P s → All P (cons_unless_blank c s)
  unfolding cons_unless_blank
  blank-All c [] p h = ground arith
  blank-All c (d ∷ s) p h = (p, h)

  trim_end-All : (s : Text) → All P s → All P (trim_end s)
  unfolding trim_end
  trim_end-All [] h = tt
  trim_end-All (c ∷ s) h = blank-All c (trim_end s) h.0 (trim_end-All s h.1)

trim_start-le : (s : Text) → length (trim_start s) ≤ length s
unfolding trim_start
trim_start-le [] = omega arith
trim_start-le (c ∷ s) = ground (arith, trim_start-le s)

trim_end-le : (s : Text) → length (trim_end s) ≤ length s
unfolding trim_end cons_unless_blank
trim_end-le [] = omega arith
trim_end-le (c ∷ s) = grind (arith, trim_end-le s)

-- A name that is accepted is not empty, `.` or `..`, has at most 200 characters, and has neither a
-- separator nor a control character.
pub safe_file_name-IsPlain :
    (raw name : Text)
    → safe_file_name raw ≡ some name
    → All IsPlain name
      × (length name ≤ 200)
      × (is_empty name ≡ false)
      × (name ≢ codes ".")
      × (name ≢ codes "..")
unfolding safe_file_name
safe_file_name-IsPlain raw name e =
    let cut = take 200 (keep (λ c. not (is_control c)) (base_name raw)) in
    let plain : All IsPlain (clean raw) =
      unfold trim in
      trim_end-All IsPlain (trim_start cut) (
        trim_start-All IsPlain cut
          (take-All IsPlain 200 _ (keep-IsPlain (base_name raw) (base_name-IsJoined raw)))) in
    let short : length (clean raw) ≤ 200 =
      unfold trim in
      omega (
        arith,
        trim_end-le (trim_start cut),
        trim_start-le cut,
        length-take 200 (keep (λ c. not (is_control c)) (base_name raw)),
      ) in
    let same : clean raw ≡ name = ground arith in
    (
      rw same at plain,
      rw same at short,
      ground arith,
      ground (arith, text_eq_iff (clean raw) (codes ".")),
      ground (arith, text_eq_iff (clean raw) (codes "..")),
    )

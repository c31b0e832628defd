-- ===== src/Common/Password/Temporary.antt =====
-- crates/rdesk_common/src/password.rs: the form of a temporary password.
use rdesk.Prelude.{
  ℕ, zero, suc, ◌<◌, ◌≡◌, refl, ap, Bool, true, ◌&&◌, ◌||◌, leb, some, [], ◌∷◌, Text, length, all,
  arith,
}
use rdesk.Common.Password.{temp_password_chars, char_at, draw_chars, generate_temporary_password}

-- `is_ascii_alphanumeric`.
abbrev pub is_ascii_alphanumeric : ℕ → Bool
is_ascii_alphanumeric c =
    (leb b'0' c && leb c b'9') || (leb b'A' c && leb c b'Z') || (leb b'a' c && leb c b'z')

char_at-all :
    (p : ℕ → Bool) (i : ℕ) (text : Text)
    → i < length text
    → all p text ≡ true
    → (c : ℕ) × (char_at i text ≡ some c) × (p c ≡ true)
unfolding char_at
char_at-all p i [] h a = absurd (omega arith)
char_at-all p zero (c ∷ text) h a = (c, refl, ground arith)
char_at-all p (suc i) (c ∷ text) h a = char_at-all p i text (omega arith) (ground arith)

draw_chars_lem :
    (drawn : ℕ → ℕ)
    → ((i : ℕ) → drawn i < 62)
    → (i n : ℕ)
    → (text : Text) × (draw_chars drawn i n ≡ some text)
      × (length text ≡ n)
      × (all is_ascii_alphanumeric text ≡ true)
unfolding draw_chars
draw_chars_lem drawn below i zero = ([], refl, refl, refl)
draw_chars_lem drawn below i (suc n) =
    let (c, at, fine) =
      char_at-all is_ascii_alphanumeric (drawn i) temp_password_chars (below i) refl in
    let (rest, drawn_rest, size, fines) = draw_chars_lem drawn below (suc i) n in
    (c ∷ rest, rw (at, drawn_rest) refl, ap suc size, rw (fine, fines) refl)

-- If each number drawn is a place of the table, the password has six characters, and each is a
-- letter or a digit of ASCII.
pub generate_temporary_password_lem :
    (drawn : ℕ → ℕ)
    → ((i : ℕ) → drawn i < 62)
    → (text : Text) × (generate_temporary_password drawn ≡ some text)
      × (length text ≡ 6)
      × (all is_ascii_alphanumeric text ≡ true)
unfolding generate_temporary_password
generate_temporary_password_lem drawn below = draw_chars_lem drawn below 0 6

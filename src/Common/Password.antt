-- ===== src/Common/Password.antt =====
-- crates/rdesk_common/src/password.rs: temporary passwords, and the hash of a permanent one.
--
-- The `argon2` crate stands outside: an `Argon2` has its calls, with the text of a hash for what it
-- prints. What `gen_range` draws is a parameter: a number for each place.
pub mod Temporary
use Prim.Native.String.{String}
use rdesk.Prelude.{ℕ, zero, suc, Bool, Option, none, some, List, [], ◌∷◌, Text, codes}
use rdesk.Common.Disk.{Result, ok, err, hash, parse}

abbrev pub temp_password_chars : Text
temp_password_chars = codes "abcdefghijklmnopqrstuvwxyzABCDEFGHIJKLMNOPQRSTUVWXYZ0123456789"

abbrev pub temp_password_len : ℕ
temp_password_len = 6

-- `TEMP_PASSWORD_CHARS[idx]`, which panics outside the table.
unfoldable pub char_at : ℕ → Text → Option ℕ
char_at i [] = none
char_at zero (c ∷ text) = some c
char_at (suc i) (c ∷ text) = char_at i text

-- The characters of `n` places from `i` on.
unfoldable pub draw_chars : (ℕ → ℕ) → ℕ → ℕ → Option Text
unfolding char_at
draw_chars drawn i zero = some []
draw_chars drawn i (suc n) =
    let rest = draw_chars drawn (suc i) n in
    elim (char_at (drawn i) temp_password_chars) [
      | none ↦ none
      | some c ↦ elim rest [ none ↦ none | some text ↦ some (c ∷ text) ]
    ]

unfoldable pub generate_temporary_password : (ℕ → ℕ) → Option Text
unfolding draw_chars
generate_temporary_password drawn = draw_chars drawn 0 temp_password_len

pub record Argon2 : Type 1 where
  pub PasswordHash : Type 0
  pub hash_with_salt : Text → Text → Option Text
  pub parse_hash : Text → Option PasswordHash
  pub verify : Text → PasswordHash → Bool

module _ (A : Argon2) where
  unfoldable pub hash_password : Text → Text → Result Text
  hash_password salt password = elim (A.hash_with_salt password salt) [
    | none ↦ err hash
    | some text ↦ ok text
  ]

  unfoldable pub verify_password : Text → Text → Result Bool
  verify_password password text = elim (A.parse_hash text) [
    | none ↦ err parse
    | some parsed ↦ ok (A.verify password parsed)
  ]

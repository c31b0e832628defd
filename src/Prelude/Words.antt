-- ===== src/Prelude/Words.antt =====
-- Sequences of bytes, and the big-endian forms of words (`to_be_bytes`, `from_be_bytes`).
use Prim.Native.Nat.{ℕ, zero, suc, ◌+◌, ◌*◌, ◌/◌, ◌%◌, ◌≤◌, ◌<◌}
use mathlib.Core.Path.{◌≡◌, refl, sym, ap, ◌∙◌}
use mathlib.Core.List.{List, [], ◌∷◌, ◌++◌}
use native.Mathlib.Omega.{arith}
use rdesk.Prelude.Lists.{length, take, drop, drop-append_self, All, All-append}

-- An `i32` or an `i64`.
pub data ℤ : Type 0 where
  pos : ℕ → ℤ
  negsuc : ℕ → ℤ

abbrev pub Bytes : Type 0
Bytes = List ℕ

abbrev pub IsByte : ℕ → Type 0
IsByte b = b < 256

abbrev pub IsBytes : Bytes → Type 0
IsBytes = All IsByte

-- `u16::to_be_bytes`.
abbrev pub be16 : ℕ → Bytes
be16 x = x / 256 % 256 ∷ x % 256 ∷ []

-- `u32::to_be_bytes`.
abbrev pub be32 : ℕ → Bytes
be32 x = x / 16777216 % 256 ∷ x / 65536 % 256 ∷ x / 256 % 256 ∷ x % 256 ∷ []

-- `u64::to_be_bytes`.
abbrev pub be64 : ℕ → Bytes
be64 x = be32 (x / 4294967296) ++ be32 x

-- `from_be_bytes` of any width.
abbrev pub from_be_after : ℕ → Bytes → ℕ
from_be_after acc [] = acc
from_be_after acc (b ∷ bs) = from_be_after (acc * 256 + b) bs

abbrev pub from_be : Bytes → ℕ
from_be bs = from_be_after 0 bs

pub from_be-be16 : (x : ℕ) → x < 65536 → from_be (be16 x) ≡ x
from_be-be16 x h = omega arith

pub from_be-be32 : (x : ℕ) → x < 4294967296 → from_be (be32 x) ≡ x
from_be-be32 x h = omega arith

pub be32-IsBytes : (x : ℕ) → IsBytes (be32 x)
be32-IsBytes x = (omega arith, (omega arith, (omega arith, (omega arith, tt))))

pub be64-IsBytes : (x : ℕ) → IsBytes (be64 x)
be64-IsBytes x =
    All-append IsByte (be32 (x / 4294967296)) (be32 x) (be32-IsBytes _) (be32-IsBytes x)

-- The bytes of several pieces.
unfoldable pub concat : List Bytes → Bytes
concat [] = []
concat (part ∷ parts) = part ++ concat parts

module _ {ℓ} {A : Type ℓ} where
  pub append_assoc : (xs ys zs : List A) → (xs ++ ys) ++ zs ≡ xs ++ (ys ++ zs)
  append_assoc [] ys zs = refl
  append_assoc (x ∷ xs) ys zs = ap (◌∷◌ x) (append_assoc xs ys zs)

  pub append-nil : (xs : List A) → xs ++ [] ≡ xs
  append-nil [] = refl
  append-nil (x ∷ xs) = ap (◌∷◌ x) (append-nil xs)

  pub take-append : (n : ℕ) (xs ys : List A) → n ≤ length xs → take n (xs ++ ys) ≡ take n xs
  take-append zero xs ys h = refl
  take-append (suc n) [] ys h = absurd (omega arith)
  take-append (suc n) (x ∷ xs) ys h = ap (◌∷◌ x) (take-append n xs ys (omega arith))

  pub drop-append : (n : ℕ) (xs ys : List A) → n ≤ length xs → drop n (xs ++ ys) ≡ drop n xs ++ ys
  drop-append zero xs ys h = refl
  drop-append (suc n) [] ys h = absurd (omega arith)
  drop-append (suc n) (x ∷ xs) ys h = drop-append n xs ys (omega arith)

  drop_nil : (n : ℕ) → drop {A = A} n [] ≡ []
  drop_nil zero = refl
  drop_nil (suc n) = refl

  pub drop-drop : (m n : ℕ) (xs : List A) → drop n (drop m xs) ≡ drop (m + n) xs
  drop-drop zero n xs = ap (λ k. drop k xs) (omega arith)
  drop-drop (suc m) n [] = drop_nil n ∙ sym (drop_nil (suc m + n))
  drop-drop (suc m) n (x ∷ xs) =
      let e : suc (m + n) ≡ suc m + n = omega arith in
      drop-drop m n xs ∙ ap (λ k. drop k (x ∷ xs)) e

  pub take-drop : (n : ℕ) (xs : List A) → take n xs ++ drop n xs ≡ xs
  take-drop zero xs = refl
  take-drop (suc n) [] = refl
  take-drop (suc n) (x ∷ xs) = ap (◌∷◌ x) (take-drop n xs)

  pub append-cancel : (xs : List A) {ys zs : List A} → xs ++ ys ≡ xs ++ zs → ys ≡ zs
  append-cancel xs {ys} {zs} e =
      sym (drop-append_self xs ys) ∙ ap (drop (length xs)) e ∙ drop-append_self xs zs

-- `u32::to_le_bytes` and `u64::to_le_bytes`.
abbrev pub le32 : ℕ → Bytes
le32 x = x % 256 ∷ x / 256 % 256 ∷ x / 65536 % 256 ∷ x / 16777216 % 256 ∷ []

abbrev pub le64 : ℕ → Bytes
le64 x = le32 x ++ le32 (x / 4294967296)

-- `from_le_bytes` of any width.
abbrev pub from_le : Bytes → ℕ
from_le [] = 0
from_le (b ∷ bs) = b + 256 * from_le bs

pub from_le-le32 : (x : ℕ) → x < 4294967296 → from_le (le32 x) ≡ x
from_le-le32 x h = omega arith

pub from_le-le64 : (x : ℕ) → x < 18446744073709551616 → from_le (le64 x) ≡ x
from_le-le64 x h = omega arith

-- ===== src/Wake/Mac/RoundTrip.antt =====
-- crates/rdesk_server/src/wake/model.rs: the parser of addresses and their normal form.
use rdesk.Prelude.{
  ℕ, suc, ◌+◌, ◌*◌, ◌/◌, ◌%◌, ◌<◌, ◌≡◌, refl, ap, ◌∙◌, Text, true, false, not, ◌==◌, some, List, [],
  ◌∷◌, ◌++◌, map, arith, All, length, any, all, trim, trim_start, trim_end, cons_unless_blank,
  is_whitespace, byte_len, Option-cases, inl, inr,
}
use rdesk.Wake.Model.{WakeResult, ok, err}
use rdesk.Wake.Mac.{
  MacAddress, hex_digit, read_hex, from_str_radix16, dash_to_colon, push_char, split, parse_parts,
  is_group, check_bytes, parse, upper_digit, hex_byte, join, normalized,
}

-- Six bytes, not all zero, and not the address of a group.
pub record IsDevice (m : MacAddress) : Type 0 where
  pub six : length m.bytes ≡ 6
  pub bytes : All (λ b. b < 256) m.bytes
  pub nonzero : all (λ b. b == 0) m.bytes ≡ false
  pub single : is_group m.bytes ≡ false

hex_digit-upper : (d : ℕ) → d < 16 → hex_digit (upper_digit d) ≡ some d
unfolding hex_digit
hex_digit-upper d h = ground arith

from_hex_byte : (b : ℕ) → b < 256 → from_str_radix16 (hex_byte b) ≡ some b
unfolding from_str_radix16 read_hex
from_hex_byte b h =
    ground (arith, hex_digit-upper (b / 16) (omega arith), hex_digit-upper (b % 16) (omega arith))

parse_parts-hex : (bs : List ℕ) → All (λ b. b < 256) bs → parse_parts (map hex_byte bs) ≡ ok bs
unfolding parse_parts
parse_parts-hex [] h = refl
parse_parts-hex (b ∷ bs) h = ground (arith, from_hex_byte b h.0, parse_parts-hex bs h.1)

-- Splitting at the colons that `join` puts in.
abbrev NoColon : Text → Type 0
NoColon = All (λ c. (c == b':') ≡ false)

split_plain : (p : Text) → NoColon p → split p ≡ p ∷ []
unfolding split push_char
split_plain [] h = refl
split_plain (c ∷ p) h = ground (arith, split_plain p h.1)

split_part : (p rest : Text) → NoColon p → split (p ++ b':' ∷ rest) ≡ p ∷ split rest
unfolding split push_char
split_part [] rest h = ground arith
split_part (c ∷ p) rest h = ground (arith, split_part p rest h.1)

split-join :
    (p : Text) (ps : List Text) → NoColon p → All NoColon ps → split (join (p ∷ ps)) ≡ p ∷ ps
unfolding join
split-join p [] h hs = split_plain p h
split-join p (q ∷ ps) h hs = split_part p _ h ∙ ap (◌∷◌ p) (split-join q ps hs.0 hs.1)

-- The characters of a normal form: neither blank nor a dash, and one byte long.
abbrev IsWord : ℕ → Type 0
IsWord c = (is_whitespace c ≡ false) × ((c == b'-') ≡ false)

upper_digit-IsWord : (d : ℕ) → d < 16 → IsWord (upper_digit d)
unfolding is_whitespace
upper_digit-IsWord d h = ground arith

upper_digit-NoColon : (d : ℕ) → d < 16 → (upper_digit d == b':') ≡ false
upper_digit-NoColon d h = ground arith

hex_byte-NoColon : (b : ℕ) → b < 256 → NoColon (hex_byte b)
hex_byte-NoColon b h =
    (upper_digit-NoColon (b / 16) (omega arith), (upper_digit-NoColon (b % 16) (omega arith), tt))

hex_bytes-NoColon : (bs : List ℕ) → All (λ b. b < 256) bs → All NoColon (map hex_byte bs)
hex_bytes-NoColon [] h = tt
hex_bytes-NoColon (b ∷ bs) h = (hex_byte-NoColon b h.0, hex_bytes-NoColon bs h.1)

join-IsWord : (bs : List ℕ) → All (λ b. b < 256) bs → All IsWord (join (map hex_byte bs))
unfolding join
join-IsWord [] h = tt
join-IsWord (b ∷ []) h =
    (upper_digit-IsWord (b / 16) (omega arith), (upper_digit-IsWord (b % 16) (omega arith), tt))
join-IsWord (b ∷ c ∷ bs) h = (
  upper_digit-IsWord (b / 16) (omega arith),
  (
    upper_digit-IsWord (b % 16) (omega arith),
    ((unfold is_whitespace in refl, refl), join-IsWord (c ∷ bs) h.1),
  ),
)

trim_end_word : (s : Text) → All IsWord s → trim_end s ≡ s
unfolding trim_end cons_unless_blank
trim_end_word [] h = refl
trim_end_word (c ∷ []) h = ground (arith, h.0.0)
trim_end_word (c ∷ d ∷ s) h = rw (trim_end_word (d ∷ s) h.1)

trim_word : (s : Text) → All IsWord s → trim s ≡ s
unfolding trim trim_start
trim_word [] h = refl
trim_word (c ∷ s) h = rw (h.0.0) (trim_end_word (c ∷ s) h)

no_dash : (s : Text) → All IsWord s → map dash_to_colon s ≡ s
no_dash [] h = refl
no_dash (c ∷ s) h = ground (arith, no_dash s h.1)

two_bytes : (b : ℕ) → b < 256 → (byte_len (hex_byte b) == 2) ≡ true
unfolding byte_len
two_bytes b h = ground arith

All-two_bytes :
    (bs : List ℕ)
    → All (λ b. b < 256) bs
    → any (λ p. not (byte_len p == 2)) (map hex_byte bs) ≡ false
All-two_bytes [] h = refl
All-two_bytes (b ∷ bs) h = ground (arith, two_bytes b h.0, All-two_bytes bs h.1)

length-hex : (bs : List ℕ) → length (map hex_byte bs) ≡ length bs
length-hex [] = refl
length-hex (b ∷ bs) = ap suc (length-hex bs)

split-normalized :
    (bs : List ℕ)
    → length bs ≡ 6
    → All (λ b. b < 256) bs
    → split (map dash_to_colon (trim (join (map hex_byte bs)))) ≡ map hex_byte bs
split-normalized [] six h = absurd (omega arith)
split-normalized (b ∷ bs) six h =
    rw (trim_word _ (join-IsWord (b ∷ bs) h), no_dash _ (join-IsWord (b ∷ bs) h))
      (split-join (hex_byte b) (map hex_byte bs) (hex_byte-NoColon b h.0)
        (hex_bytes-NoColon bs h.1))

check_device :
    (bs : List ℕ)
    → all (λ b. b == 0) bs ≡ false
    → is_group bs ≡ false
    → check_bytes (ok bs) ≡ ok (record { bytes = bs })
unfolding check_bytes
check_device bs z g = ground arith

-- A device's address is read back from its normal form.
pub parse-normalized : (m : MacAddress) → IsDevice m → parse (normalized m) ≡ ok m
unfolding parse normalized
parse-normalized m v =
    rw
      (
        split-normalized m.bytes v.six v.bytes,
        All-two_bytes m.bytes v.bytes,
        length-hex m.bytes,
        v.six,
        parse_parts-hex m.bytes v.bytes,
      )
      (check_device m.bytes v.nonzero v.single)

read_hex-lt : (acc : ℕ) (s : Text) (b : ℕ) → acc < 256 → read_hex acc s ≡ some b → b < 256
unfolding read_hex
read_hex-lt acc [] b h e = ground arith
read_hex-lt acc (c ∷ s) b h e = elim (Option-cases (hex_digit c)) [
  | inl other ↦ absurd (ground arith)
  | inr (v, digit) ↦ ground (arith, read_hex-lt (acc * 16 + v) s b)
]

from_str_radix16-lt : (p : Text) (b : ℕ) → from_str_radix16 p ≡ some b → b < 256
unfolding from_str_radix16
from_str_radix16-lt [] b e = cc
from_str_radix16-lt (c ∷ []) b e = read_hex-lt 0 (c ∷ []) b (omega arith) e
from_str_radix16-lt (c ∷ d ∷ s) b e =
    ground (arith, read_hex-lt 0 (d ∷ s) b, read_hex-lt 0 (c ∷ d ∷ s) b)

parts_read :
    (ps : List Text) (bs : List ℕ)
    → parse_parts ps ≡ ok bs
    → (length bs ≡ length ps) × All (λ b. b < 256) bs
unfolding parse_parts
parts_read [] [] e = (refl, tt)
parts_read [] (b ∷ bs) e = cc
parts_read (p ∷ ps) [] e = absurd (ground arith)
parts_read (p ∷ ps) (b ∷ bs) e = ground (arith, parts_read ps bs, from_str_radix16-lt p b)

checked_device :
    (r : WakeResult (List ℕ)) (m : MacAddress)
    → check_bytes r ≡ ok m
    → (r ≡ ok m.bytes) × (all (λ b. b == 0) m.bytes ≡ false) × (is_group m.bytes ≡ false)
unfolding check_bytes
checked_device (err e) m h = cc
checked_device (ok bytes) m h = ground arith

-- What the parser accepts is a device's address: six bytes, not all zero, and not a group's.
pub parse-IsDevice : (raw : Text) (m : MacAddress) → parse raw ≡ ok m → IsDevice m
unfolding parse
parse-IsDevice raw m e =
    let parts = split (map dash_to_colon (trim raw)) in
    let six : length parts ≡ 6 = ground arith in
    let checked = checked_device (parse_parts parts) m (ground arith) in
    let read = parts_read parts m.bytes checked.0 in
    record { six = read.0 ∙ six; bytes = read.1; nonzero = checked.1; single = checked.2 }

-- What the parser accepts is a device's address, and reads back from its normal form.
pub parse_lem :
    (raw : Text) (m : MacAddress) → parse raw ≡ ok m → IsDevice m × (parse (normalized m) ≡ ok m)
parse_lem raw m e = let device = parse-IsDevice raw m e in (device, parse-normalized m device)

-- ===== src/Common/DeviceId/Numerals.antt =====
-- crates/rdesk_common/src/device_id.rs: the numbers that are drawn and the identifiers they give.
use rdesk.Prelude.{
  ℕ, zero, suc, ◌+◌, ◌-◌, ◌*◌, ◌/◌, ◌%◌, ◌≤◌, ◌<◌, ◌≡◌, ◌⊎◌, inl, inr, refl, true, lt→ltb, [], ◌∷◌,
  ◌++◌, Text, byte_len, all, arith,
}
use rdesk.Common.DeviceId.{
  decimal, generate_device_id, is_ascii_digit, starts_nonzero, validate_device_id,
}

-- A power of ten.
abbrev tens : ℕ → ℕ
tens zero = 1
tens (suc k) = 10 * tens k

tens_positive : (k : ℕ) → 1 ≤ tens k
tens_positive zero = omega arith
tens_positive (suc k) = omega (arith, tens_positive k)

lt_or_le : (a b : ℕ) → (a < b) ⊎ (b ≤ a)
lt_or_le a b = ground arith

-- A text of `n` digits that does not begin with zero.
abbrev IsNumeral : ℕ → Text → Type 0
IsNumeral n text =
    (byte_len text ≡ n) × (all is_ascii_digit text ≡ true) × (starts_nonzero text ≡ true)

abbrev number_after : ℕ → Text → ℕ
number_after acc [] = acc
number_after acc (c ∷ text) = number_after (acc * 10 + (c - 48)) text

-- The number that a text of digits tells.
abbrev pub number_of : Text → ℕ
number_of text = number_after 0 text

number_after-append :
    (acc : ℕ) (a b : Text) → number_after acc (a ++ b) ≡ number_after (number_after acc a) b
number_after-append acc [] b = refl
number_after-append acc (c ∷ a) b = number_after-append (acc * 10 + (c - 48)) a b

byte_len-snoc :
    (text : Text) (d : ℕ) → d < 10 → byte_len (text ++ (48 + d) ∷ []) ≡ byte_len text + 1
unfolding byte_len
byte_len-snoc [] d h = ground arith
byte_len-snoc (c ∷ text) d h = omega (arith, byte_len-snoc text d h)

all-snoc :
    (text : Text) (d : ℕ)
    → d < 10
    → all is_ascii_digit text ≡ true
    → all is_ascii_digit (text ++ (48 + d) ∷ []) ≡ true
unfolding is_ascii_digit
all-snoc [] d h e = ground arith
all-snoc (c ∷ text) d h e = ground (arith, all-snoc text d h)

starts_nonzero-append :
    (text more : Text) → starts_nonzero text ≡ true → starts_nonzero (text ++ more) ≡ true
unfolding starts_nonzero
starts_nonzero-append [] more e = ground arith
starts_nonzero-append (c ∷ text) more e = e

decimal-short : (f n : ℕ) → n < 10 → decimal (suc f) n ≡ (48 + n) ∷ []
unfolding decimal
decimal-short f n h = rw (lt→ltb n 10 h) refl

decimal-long : (f n : ℕ) → 10 ≤ n → decimal (suc f) n ≡ decimal f (n / 10) ++ (48 + n % 10) ∷ []
unfolding decimal
decimal-long f n h = ground arith

IsNumeral-snoc :
    (n d : ℕ) (text : Text) → d < 10 → IsNumeral n text → IsNumeral (suc n) (text ++ (48 + d) ∷ [])
IsNumeral-snoc n d text h (size, digits, leads) = (
  omega (arith, byte_len-snoc text d h),
  all-snoc text d h digits,
  starts_nonzero-append text _ leads,
)

IsNumeral-digit : (n : ℕ) → 1 ≤ n → n < 10 → IsNumeral 1 ((48 + n) ∷ [])
unfolding byte_len is_ascii_digit starts_nonzero
IsNumeral-digit n low high = (ground arith, ground arith, ground arith)

-- A number from the `k`-th power of ten on, and below the next one, has one digit more than `k`.
decimal-IsNumeral :
    (k f n : ℕ) → k < f → tens k ≤ n → n < tens (suc k) → IsNumeral (suc k) (decimal f n)
decimal-IsNumeral k zero n enough low high = absurd (omega arith)
decimal-IsNumeral zero (suc f) n enough low high =
    rw (decimal-short f n (omega arith)) (IsNumeral-digit n low (omega arith))
decimal-IsNumeral (suc k) (suc f) n enough low high =
    let rest = decimal-IsNumeral k f (n / 10) (omega arith) (omega arith) (omega arith) in
    rw (decimal-long f n (omega (arith, tens_positive k)))
      (IsNumeral-snoc (suc k) (n % 10) _ (omega arith) rest)

-- The number is told back.
number_of-decimal : (k f n : ℕ) → k < f → n < tens (suc k) → number_of (decimal f n) ≡ n
number_of-decimal k zero n enough high = absurd (omega arith)
number_of-decimal zero (suc f) n enough high = rw (decimal-short f n (omega arith)) (omega arith)
number_of-decimal (suc k) (suc f) n enough high = elim (lt_or_le n 10) [
  | inl short ↦ rw (decimal-short f n short) (omega arith)
  | inr long ↦
      rw
        (
          decimal-long f n long,
          number_after-append 0 (decimal f (n / 10)) ((48 + n % 10) ∷ []),
          number_of-decimal k f (n / 10) (omega arith) (omega arith),
        )
        (omega arith)
]

-- For a number in the range that is drawn, the identifier has nine digits, of which the first is
-- not zero, and tells the number.
pub validate_device_id-generate_device_id :
    (drawn : ℕ)
    → 100000000 ≤ drawn
    → drawn ≤ 999999999
    → (validate_device_id (generate_device_id drawn) ≡ true)
      × (number_of (generate_device_id drawn) ≡ drawn)
unfolding validate_device_id generate_device_id
validate_device_id-generate_device_id drawn low high =
    let (size, digits, leads) = decimal-IsNumeral 8 10 drawn (omega arith) low (omega arith) in
    (rw (size, digits, leads) refl, number_of-decimal 9 10 drawn (omega arith) (omega arith))

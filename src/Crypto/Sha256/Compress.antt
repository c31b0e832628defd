-- ===== src/Crypto/Sha256/Compress.antt =====
-- crates/rdesk_crypto/src/auth.rs: `Sha256::compress`, with its tables.
use Prim.Native.Nat.{bit_and, bit_xor}
use rdesk.Prelude.{
  ℕ, zero, suc, ◌+◌, ◌-◌, ◌*◌, ◌/◌, ◌%◌, ◌^◌, List, [], ◌∷◌, ◌++◌, take, drop, Bytes, from_be,
}

pub record Words8 : Type 0 where
  pub a : ℕ
  pub b : ℕ
  pub c : ℕ
  pub d : ℕ
  pub e : ℕ
  pub f : ℕ
  pub g : ℕ
  pub h : ℕ

abbrev pub h_init : Words8
h_init = record {
  a = 0x6a09e667;
  b = 0xbb67ae85;
  c = 0x3c6ef372;
  d = 0xa54ff53a;
  e = 0x510e527f;
  f = 0x9b05688c;
  g = 0x1f83d9ab;
  h = 0x5be0cd19;
}

abbrev pub k : List ℕ
k =
    0x428a2f98 ∷ 0x71374491 ∷ 0xb5c0fbcf ∷ 0xe9b5dba5 ∷ 0x3956c25b ∷ 0x59f111f1 ∷ 0x923f82a4
    ∷ 0xab1c5ed5 ∷ 0xd807aa98 ∷ 0x12835b01 ∷ 0x243185be ∷ 0x550c7dc3 ∷ 0x72be5d74 ∷ 0x80deb1fe
    ∷ 0x9bdc06a7 ∷ 0xc19bf174 ∷ 0xe49b69c1 ∷ 0xefbe4786 ∷ 0x0fc19dc6 ∷ 0x240ca1cc ∷ 0x2de92c6f
    ∷ 0x4a7484aa ∷ 0x5cb0a9dc ∷ 0x76f988da ∷ 0x983e5152 ∷ 0xa831c66d ∷ 0xb00327c8 ∷ 0xbf597fc7
    ∷ 0xc6e00bf3 ∷ 0xd5a79147 ∷ 0x06ca6351 ∷ 0x14292967 ∷ 0x27b70a85 ∷ 0x2e1b2138 ∷ 0x4d2c6dfc
    ∷ 0x53380d13 ∷ 0x650a7354 ∷ 0x766a0abb ∷ 0x81c2c92e ∷ 0x92722c85 ∷ 0xa2bfe8a1 ∷ 0xa81a664b
    ∷ 0xc24b8b70 ∷ 0xc76c51a3 ∷ 0xd192e819 ∷ 0xd6990624 ∷ 0xf40e3585 ∷ 0x106aa070 ∷ 0x19a4c116
    ∷ 0x1e376c08 ∷ 0x2748774c ∷ 0x34b0bcb5 ∷ 0x391c0cb3 ∷ 0x4ed8aa4a ∷ 0x5b9cca4f ∷ 0x682e6ff3
    ∷ 0x748f82ee ∷ 0x78a5636f ∷ 0x84c87814 ∷ 0x8cc70208 ∷ 0x90befffa ∷ 0xa4506ceb ∷ 0xbef9a3f7
    ∷ 0xc67178f2 ∷ []

-- `wrapping_add`.
infixl 60 ◌⊕◌
abbrev pub ◌⊕◌ : ℕ → ℕ → ℕ
x ⊕ y = (x + y) % 4294967296

-- `rotate_right(n)` of a word.
abbrev pub rotate_right : ℕ → ℕ → ℕ
rotate_right n x = x / 2 ^ n + x % 2 ^ n * 2 ^ (32 - n)

-- `!x` of a word.
abbrev pub complement : ℕ → ℕ
complement x = 4294967295 - x

abbrev pub xor3 : ℕ → ℕ → ℕ → ℕ
xor3 x y z = bit_xor (bit_xor x y) z

-- `w[i]`, for an index below the number of words.
abbrev pub word_at : ℕ → List ℕ → ℕ
word_at i [] = 0
word_at zero (x ∷ xs) = x
word_at (suc i) (x ∷ xs) = word_at i xs

-- The first sixteen words of the schedule, as many as `n`.
unfoldable pub read_words : ℕ → Bytes → List ℕ
read_words zero block = []
read_words (suc n) block = from_be (take 4 block) ∷ read_words n (drop 4 block)

-- `w[i]` for `i` from 16.
unfoldable pub next_word : ℕ → List ℕ → ℕ
next_word i w =
    let x = word_at (i - 15) w in
    let y = word_at (i - 2) w in
    let s0 = xor3 (rotate_right 7 x) (rotate_right 18 x) (x / 2 ^ 3) in
    let s1 = xor3 (rotate_right 17 y) (rotate_right 19 y) (y / 2 ^ 10) in
    word_at (i - 16) w ⊕ s0 ⊕ word_at (i - 7) w ⊕ s1

-- The loop over `i`, for `n` rounds.
unfoldable pub extend : ℕ → ℕ → List ℕ → List ℕ
unfolding next_word
extend zero i w = w
extend (suc n) i w = extend n (i + 1) (w ++ next_word i w ∷ [])

unfoldable pub schedule : Bytes → List ℕ
unfolding read_words extend
schedule block = extend 48 16 (read_words 16 block)

unfoldable pub round : ℕ → ℕ → Words8 → Words8
round ki wi s =
    let s1 = xor3 (rotate_right 6 s.e) (rotate_right 11 s.e) (rotate_right 25 s.e) in
    let ch = bit_xor (bit_and s.e s.f) (bit_and (complement s.e) s.g) in
    let temp1 = s.h ⊕ s1 ⊕ ch ⊕ ki ⊕ wi in
    let s0 = xor3 (rotate_right 2 s.a) (rotate_right 13 s.a) (rotate_right 22 s.a) in
    let maj = xor3 (bit_and s.a s.b) (bit_and s.a s.c) (bit_and s.b s.c) in
    let temp2 = s0 ⊕ maj in
    record {
      a = temp1 ⊕ temp2;
      b = s.a;
      c = s.b;
      d = s.c;
      e = s.d ⊕ temp1;
      f = s.e;
      g = s.f;
      h = s.g;
    }

-- The rounds, each with its constant and its word of the schedule.
unfoldable pub rounds : List ℕ → List ℕ → Words8 → Words8
unfolding round
rounds [] w s = s
rounds (ki ∷ ks) [] s = s
rounds (ki ∷ ks) (wi ∷ w) s = rounds ks w (round ki wi s)

unfoldable pub compress : Words8 → Bytes → Words8
unfolding schedule rounds
compress state block =
    let s = rounds k (schedule block) state in
    record {
      a = state.a ⊕ s.a;
      b = state.b ⊕ s.b;
      c = state.c ⊕ s.c;
      d = state.d ⊕ s.d;
      e = state.e ⊕ s.e;
      f = state.f ⊕ s.f;
      g = state.g ⊕ s.g;
      h = state.h ⊕ s.h;
    }

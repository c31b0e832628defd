-- ===== src/Crypto/Sha256/Streaming.antt =====
-- crates/rdesk_crypto/src/auth.rs and session_key.rs: the two implementations, and their padding.
use rdesk.Prelude.{
  ℕ, zero, suc, ◌+◌, ◌-◌, ◌*◌, ◌%◌, ◌≤◌, ◌≡◌, ◌≢◌, refl, sym, ap, ◌∙◌, true, false, ◌==◌, List, [],
  ◌∷◌, ◌++◌, arith, length, Bytes, IsByte, IsBytes, All-append, concat, be32, be32-IsBytes, be64,
  append_assoc, append-nil, length-append, Bool-cases, inl, inr,
}
use rdesk.Crypto.Sha256.{
  Words8, h_init, Sha256, new, take_blocks, pad_zeros, pad, digest_of, update, finalize,
  sha256_concat, sha256,
}
use rdesk.Crypto.Sha256.Blocks.{all_blocks, blocks-append, all_blocks-left}

-- The zeros that a message of length `l` gets, within `n` rounds.
unfoldable zeros : ℕ → ℕ → Bytes
zeros zero l = []
zeros (suc n) l = elim (l % 64 == 56) [ true ↦ [] | false ↦ 0 ∷ zeros n (suc l) ]

pad_zeros_lem : (n : ℕ) (buffer : Bytes) → pad_zeros n buffer ≡ buffer ++ zeros n (length buffer)
unfolding pad_zeros zeros
pad_zeros_lem zero buffer = sym (append-nil buffer)
pad_zeros_lem (suc n) buffer = elim (Bool-cases (length buffer % 64 == 56)) [
  | inl e ↦ rw (pad_zeros, zeros, e) (sym (append-nil buffer))
  | inr e ↦
      let l : length (buffer ++ 0 ∷ []) ≡ suc (length buffer) =
        omega (arith, length-append buffer (0 ∷ [])) in
      rw (pad_zeros, zeros, e)
        (pad_zeros_lem n (buffer ++ 0 ∷ [])
          ∙ rw l (append_assoc buffer (0 ∷ []) (zeros n (suc (length buffer)))))
]

zeros_mod : (n l m : ℕ) → l % 64 ≡ m % 64 → zeros n l ≡ zeros n m
unfolding zeros
zeros_mod zero l m e = refl
zeros_mod (suc n) l m e = let ih = zeros_mod n (suc l) (suc m) (omega arith) in ground (arith, ih)

-- As many rounds as zeros are missing to 56 push as many.
zeros-length : (n l : ℕ) → (120 - l % 64) % 64 ≤ n → length (zeros n l) ≡ (120 - l % 64) % 64
unfolding zeros
zeros-length zero l h = omega arith
zeros-length (suc n) l h = elim (Bool-cases (l % 64 == 56)) [
  | inl e ↦ rw (zeros, e) (ground arith)
  | inr e ↦
      rw (zeros, e)
        (let q : l % 64 ≢ 56 = ground arith in omega (arith, zeros-length n (suc l) (omega arith)))
]

-- What the padding appends, for a message of so many bits, to a buffer of length `l`.
abbrev tail : ℕ → ℕ → Bytes
tail bit_len l = 0x80 ∷ [] ++ (zeros 64 (suc l) ++ be64 bit_len)

pad_lem :
    (bit_len : ℕ) (buffer : Bytes) → pad bit_len buffer ≡ buffer ++ tail bit_len (length buffer)
unfolding pad
pad_lem bit_len buffer =
    let l : length (buffer ++ 0x80 ∷ []) ≡ suc (length buffer) =
      omega (arith, length-append buffer (0x80 ∷ [])) in
    rw (pad_zeros_lem 64 (buffer ++ 0x80 ∷ []), l)
      (append_assoc (buffer ++ 0x80 ∷ []) (zeros 64 (suc (length buffer))) (be64 bit_len)
        ∙ append_assoc buffer (0x80 ∷ []) (zeros 64 (suc (length buffer)) ++ be64 bit_len))

-- The padding ends, and what is padded fills whole blocks, so that no byte is left out.
pub pad-fills :
    (bit_len : ℕ) (buffer : Bytes)
    → (length (pad bit_len buffer) % 64 ≡ 0)
      × (length (all_blocks h_init (pad bit_len buffer)).1 ≡ 0)
pad-fills bit_len buffer =
    let z = zeros-length 64 (suc (length buffer)) (omega arith) in
    let front = 0x80 ∷ [] ++ zeros 64 (suc (length buffer)) in
    let t : length (tail bit_len (length buffer)) ≡ 9 + (120 - suc (length buffer) % 64) % 64 =
      omega (arith, z, length-append (zeros 64 (suc (length buffer))) (be64 bit_len)) in
    let e : length (pad bit_len buffer) % 64 ≡ 0 =
      rw (pad_lem bit_len buffer)
        (omega (arith, t, length-append buffer (tail bit_len (length buffer)))) in
    (e, omega (arith, e, all_blocks-left h_init (pad bit_len buffer)))

-- The hasher that has taken in these bytes.
abbrev absorbed : Bytes → Sha256
absorbed bytes = record {
  state = (all_blocks h_init bytes).0;
  buffer = (all_blocks h_init bytes).1;
  total_len = length bytes % 18446744073709551616;
}

update-absorbed : (bytes more : Bytes) → update (absorbed bytes) more ≡ absorbed (bytes ++ more)
unfolding update
update-absorbed bytes more =
    let t : (length bytes % 18446744073709551616 + length more) % 18446744073709551616
        ≡ length (bytes ++ more) % 18446744073709551616 =
      omega (arith, length-append bytes more) in
    rw (t, sym (blocks-append h_init bytes more)) refl

finalize-absorbed : (bytes : Bytes) → finalize (absorbed bytes) ≡ sha256 bytes
unfolding finalize sha256
finalize-absorbed bytes =
    let bits = length bytes % 18446744073709551616 * 8 % 18446744073709551616 in
    let left = all_blocks h_init bytes in
    let z =
      zeros_mod 64 (suc (length left.1)) (suc (length bytes))
        (omega (arith, all_blocks-left h_init bytes)) in
    rw (pad_lem bits left.1, pad_lem bits bytes, z)
      (ap (λ b. digest_of b.0) (sym (blocks-append h_init bytes (tail bits (length bytes)))))

abbrev pub update_all : Sha256 → List Bytes → Sha256
update_all hasher [] = hasher
update_all hasher (part ∷ parts) = update_all (update hasher part) parts

updates-absorbed :
    (bytes : Bytes) (parts : List Bytes)
    → update_all (absorbed bytes) parts ≡ absorbed (bytes ++ concat parts)
unfolding concat
updates-absorbed bytes [] = rw (append-nil bytes) refl
updates-absorbed bytes (part ∷ parts) =
    rw (update-absorbed bytes part, sym (append_assoc bytes part (concat parts)))
      (updates-absorbed (bytes ++ part) parts)

new-absorbed : new ≡ absorbed []
unfolding new take_blocks
new-absorbed = refl

-- A message that the hasher gets in pieces, cut anywhere, has the digest that the function of
-- session_key.rs gives for the whole.
pub finalize-update_all :
    (parts : List Bytes) → finalize (update_all new parts) ≡ sha256 (concat parts)
finalize-update_all parts =
    rw (new-absorbed, updates-absorbed [] parts) (finalize-absorbed (concat parts))

pub sha256_concat_lem : (a b : Bytes) → sha256_concat a b ≡ sha256 (a ++ b)
unfolding sha256_concat concat
sha256_concat_lem a b = finalize-update_all (a ∷ b ∷ []) ∙ ap (λ l. sha256 (a ++ l)) (append-nil b)

word-IsBytes : (x : ℕ) (rest : Bytes) → IsBytes rest → IsBytes (be32 x ++ rest)
word-IsBytes x rest h = All-append IsByte (be32 x) rest (be32-IsBytes x) h

digest_of-IsDigest : (s : Words8) → (length (digest_of s) ≡ 32) × IsBytes (digest_of s)
unfolding digest_of
digest_of-IsDigest s =
    let g = be32 s.g ++ be32 s.h in
    let f = be32 s.f ++ g in
    let e = be32 s.e ++ f in
    let d = be32 s.d ++ e in
    let c = be32 s.c ++ d in
    let all_g = word-IsBytes s.g (be32 s.h) (be32-IsBytes s.h) in
    let all_e = word-IsBytes s.e f (word-IsBytes s.f g all_g) in
    let all_c = word-IsBytes s.c d (word-IsBytes s.d e all_e) in
    (refl, word-IsBytes s.a (be32 s.b ++ c) (word-IsBytes s.b c all_c))

-- A digest is 32 bytes.
pub sha256-IsDigest : (bytes : Bytes) → (length (sha256 bytes) ≡ 32) × IsBytes (sha256 bytes)
unfolding sha256
sha256-IsDigest bytes = digest_of-IsDigest (all_blocks h_init (pad _ bytes)).0

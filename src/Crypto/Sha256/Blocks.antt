-- ===== src/Crypto/Sha256/Blocks.antt =====
-- crates/rdesk_crypto/src/auth.rs and session_key.rs: the blocks of a buffer that grows.
use rdesk.Prelude.{
  ℕ, zero, suc, ◌+◌, ◌%◌, ◌≤◌, ◌<◌, ◌≡◌, refl, sym, ◌∙◌, true, false, ltb, ◌++◌, arith, length,
  take, drop, Bytes, take-append, drop-append, length-append, length-drop, Bool-cases, inl, inr,
}
use rdesk.Crypto.Sha256.{Words8, compress, take_blocks}

-- One round of the loop over the blocks.
module _ (state : Words8) (buffer : Bytes) where
  few : (n : ℕ) → length buffer < 64 → take_blocks n state buffer ≡ (state, buffer)
  unfolding take_blocks
  few zero h = refl
  few (suc n) h = let e : ltb (length buffer) 64 ≡ true = ground arith in rw (take_blocks, e) refl

  many :
      (n : ℕ)
      → 64 ≤ length buffer
      → take_blocks (suc n) state buffer
        ≡ take_blocks n (compress state (take 64 buffer)) (drop 64 buffer)
  unfolding take_blocks
  many n h = let e : ltb (length buffer) 64 ≡ false = ground arith in rw (take_blocks, e) refl

  fewer : 64 ≤ length buffer → length (drop 64 buffer) + 64 ≡ length buffer
  fewer h = omega (arith, length-drop 64 buffer)

-- All the blocks of a buffer; the fuel does not matter once it is as long as the buffer.
blocks_fuel :
    (n m : ℕ) (state : Words8) (buffer : Bytes)
    → length buffer ≤ n
    → length buffer ≤ m
    → take_blocks n state buffer ≡ take_blocks m state buffer
blocks_fuel zero m state buffer h k =
    few state buffer zero (omega arith) ∙ sym (few state buffer m (omega arith))
blocks_fuel (suc n) zero state buffer h k =
    few state buffer (suc n) (omega arith) ∙ sym (few state buffer zero (omega arith))
blocks_fuel (suc n) (suc m) state buffer h k = elim (Bool-cases (ltb (length buffer) 64)) [
  | inl e ↦
      let l : length buffer < 64 = ground arith in
      few state buffer (suc n) l ∙ sym (few state buffer (suc m) l)
  | inr e ↦
      let l : 64 ≤ length buffer = ground arith in
      let s = fewer state buffer l in
      many state buffer n l
      ∙ blocks_fuel n m _ (drop 64 buffer) (omega arith) (omega arith)
      ∙ sym (many state buffer m l)
]

abbrev pub all_blocks : Words8 → Bytes → Words8 × Bytes
all_blocks state buffer = take_blocks (length buffer) state buffer

-- The blocks of a buffer and of what comes behind it: those of the buffer, and then those of what is
-- left of it and of what comes behind it.
blocks-append_within :
    (n : ℕ) (state : Words8) (buffer more : Bytes)
    → length buffer ≤ n
    → all_blocks state (buffer ++ more)
      ≡ all_blocks (take_blocks n state buffer).0 ((take_blocks n state buffer).1 ++ more)
blocks-append_within zero state buffer more h = rw (few state buffer zero (omega arith)) refl
blocks-append_within (suc n) state buffer more h = elim (Bool-cases (ltb (length buffer) 64)) [
  | inl e ↦ rw (few state buffer (suc n) (ground arith)) refl
  | inr e ↦
      let l : 64 ≤ length buffer = ground arith in
      let s = fewer state buffer l in
      let la = length-append buffer more in
      let ld = length-append (drop 64 buffer) more in
      let next = compress state (take 64 buffer) in
      blocks_fuel (length (buffer ++ more)) (suc (length (buffer ++ more))) state (buffer ++ more)
        (omega arith) (omega arith)
      ∙ many state (buffer ++ more) (length (buffer ++ more)) (omega arith)
      ∙ rw (take-append 64 buffer more l, drop-append 64 buffer more l)
          (blocks_fuel (length (buffer ++ more)) (length (drop 64 buffer ++ more)) next
            (drop 64 buffer ++ more) (omega arith) (omega arith))
      ∙ blocks-append_within n next (drop 64 buffer) more (omega arith)
      ∙ rw (many state buffer n l) refl
]

pub blocks-append :
    (state : Words8) (buffer more : Bytes)
    → all_blocks state (buffer ++ more)
      ≡ all_blocks (all_blocks state buffer).0 ((all_blocks state buffer).1 ++ more)
blocks-append state buffer more =
    blocks-append_within (length buffer) state buffer more (omega arith)

-- What is left has the length of the whole, less whole blocks, and is no block.
blocks-left :
    (n : ℕ) (state : Words8) (buffer : Bytes)
    → length buffer ≤ n
    → (length (take_blocks n state buffer).1 % 64 ≡ length buffer % 64)
      × (length (take_blocks n state buffer).1 < 64)
blocks-left zero state buffer h = rw (few state buffer zero (omega arith)) (refl, omega arith)
blocks-left (suc n) state buffer h = elim (Bool-cases (ltb (length buffer) 64)) [
  | inl e ↦ rw (few state buffer (suc n) (ground arith)) (refl, ground arith)
  | inr e ↦
      let l : 64 ≤ length buffer = ground arith in
      let s = fewer state buffer l in
      let ih = blocks-left n (compress state (take 64 buffer)) (drop 64 buffer) (omega arith) in
      rw (many state buffer n l) (omega (arith, ih.0), ih.1)
]

pub all_blocks-left :
    (state : Words8) (buffer : Bytes)
    → (length (all_blocks state buffer).1 % 64 ≡ length buffer % 64)
      × (length (all_blocks state buffer).1 < 64)
all_blocks-left state buffer = blocks-left (length buffer) state buffer (omega arith)

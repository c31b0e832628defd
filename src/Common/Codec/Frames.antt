-- ===== src/Common/Codec/Frames.antt =====
-- crates/rdesk_common/src/bytes_codec.rs: what a reader gets from a stream of frames.
use rdesk.Prelude.{
  ℕ, zero, suc, ◌+◌, ◌-◌, ◌≤◌, ◌<◌, ◌≡◌, refl, sym, ap, ◌∙◌, false, Option, none, some, ltb, List,
  [], ◌∷◌, ◌++◌, arith, length, take, drop, Bytes, be32, from_be-be32, take-append, drop-append,
  take-append_self, drop-append_self, length-append, length-drop, Option-cases, inl, inr,
}
use rdesk.Common.Codec.{
  peek_length, split_payload, BytesCodec, Decoded, frame, incomplete, failed, take_frame, decode,
}

-- What stands behind a prefix that tells the length of the message.
pub peek-frame : (n : ℕ) (rest : Bytes) → n < 4294967296 → peek_length (be32 n ++ rest) ≡ n
peek-frame n rest h = from_be-be32 n h

pub split-frame :
    (msg rest : Bytes) (n : ℕ) → split_payload (length msg) (be32 n ++ (msg ++ rest)) ≡ (msg, rest)
split-frame msg rest n = rw (take-append_self msg rest, drop-append_self msg rest) refl

-- A frame that `decode` takes, as an option.
unfoldable pub frame_of : Decoded × Bytes → Option (Bytes × Bytes)
frame_of (frame p, rest) = some (p, rest)
frame_of (incomplete, rest) = none
frame_of (failed e, rest) = none

-- All the frames that a buffer holds, and the buffer that is left.
unfoldable pub drain_within : ℕ → BytesCodec → Bytes → List Bytes × Bytes
drain_within zero codec buf = ([], buf)
drain_within (suc n) codec buf = elim (frame_of (decode codec buf)) [
  | none ↦ ([], buf)
  | some taken ↦ let rest = drain_within n codec taken.1 in (taken.0 ∷ rest.0, rest.1)
]

abbrev pub drain : BytesCodec → Bytes → List Bytes × Bytes
drain codec buf = drain_within (length buf) codec buf

take_frame-framed :
    (msg rest : Bytes)
    → take_frame (length msg) (be32 (length msg) ++ (msg ++ rest)) ≡ (frame msg, rest)
unfolding take_frame
take_frame-framed msg rest =
    ground (arith, split-frame msg rest (length msg), length-append msg rest)

pub decode-framed :
    (codec : BytesCodec) (msg rest : Bytes)
    → length msg ≤ codec.max_frame_length
    → length msg < 4294967296
    → decode codec (be32 (length msg) ++ (msg ++ rest)) ≡ (frame msg, rest)
unfolding decode
decode-framed codec msg rest h small =
    rw (peek-frame (length msg) (msg ++ rest) small) (ground (arith, take_frame-framed msg rest))

-- A frame that is taken: its prefix and its bytes are there, and more bytes that come behind them
-- stay behind.
module _ (codec : BytesCodec) (buf : Bytes) where
  pub len : ℕ
  len = peek_length buf

  pub record IsFramed (p rest : Bytes) : Type 0 where
    admitted : ltb codec.max_frame_length len ≡ false
    there : 4 + len ≤ length buf
    payload : take len (drop 4 buf) ≡ p
    left : drop len (drop 4 buf) ≡ rest

  pub is_framed : (p rest : Bytes) → frame_of (decode codec buf) ≡ some (p, rest) → IsFramed p rest
  unfolding decode take_frame len frame_of
  is_framed p rest e = record {
    admitted = ground arith;
    there = ground arith;
    payload = ground arith;
    left = ground arith;
  }

  pub framed :
      (p rest more : Bytes) → IsFramed p rest → decode codec (buf ++ more) ≡ (frame p, rest ++ more)
  unfolding decode take_frame len
  framed p rest more f =
      let t : take 4 (buf ++ more) ≡ take 4 buf =
        take-append 4 buf more (ground (arith, f.there)) in
      let d : drop 4 (buf ++ more) ≡ drop 4 buf ++ more =
        drop-append 4 buf more (ground (arith, f.there)) in
      let n : length (drop 4 buf) ≡ length buf - 4 = length-drop 4 buf in
      let tk : take len (drop 4 (buf ++ more)) ≡ p =
        rw (d, take-append len (drop 4 buf) more (ground (arith, f.there))) f.payload in
      let dr : drop len (drop 4 (buf ++ more)) ≡ rest ++ more =
        rw (d, drop-append len (drop 4 buf) more (ground (arith, f.there)), f.left) refl in
      rw t (ground (arith, tk, dr, f.admitted, f.there, length-append buf more))

  framed-shrinks : (p rest : Bytes) → IsFramed p rest → length rest + 4 ≤ length buf
  framed-shrinks p rest f =
      let n : length (drop len (drop 4 buf)) ≡ length buf - 4 - len =
        length-drop len (drop 4 buf) ∙ ap (λ k. k - len) (length-drop 4 buf) in
      ground (arith, n, f.left, f.there)

-- One step of a drain, by what the buffer begins with.
module _ (codec : BytesCodec) (buf : Bytes) where
  pub drain_none :
      (n : ℕ) → frame_of (decode codec buf) ≡ none → drain_within n codec buf ≡ ([], buf)
  unfolding drain_within
  drain_none zero e = refl
  drain_none (suc n) e = rw (drain_within, e) refl

  pub drain_some :
      (n : ℕ) (p rest : Bytes)
      → frame_of (decode codec buf) ≡ some (p, rest)
      → drain_within (suc n) codec buf
        ≡ (p ∷ (drain_within n codec rest).0, (drain_within n codec rest).1)
  unfolding drain_within
  drain_some n p rest e = rw (drain_within, e) refl

  pub shrinks :
      (p rest : Bytes) → frame_of (decode codec buf) ≡ some (p, rest) → length rest + 4 ≤ length buf
  shrinks p rest e = framed-shrinks codec buf p rest (is_framed codec buf p rest e)

  pub drain_nothing : (n : ℕ) → length buf ≤ 0 → drain_within n codec buf ≡ ([], buf)
  drain_nothing n h = elim (Option-cases (frame_of (decode codec buf))) [
    | inl e ↦ drain_none n e
    | inr (taken, e) ↦ absurd (omega (arith, shrinks taken.0 taken.1 e))
  ]

-- Draining a buffer and what comes behind it is draining the buffer, and then its rest and what
-- comes behind it, if there is fuel enough.
module _ (codec : BytesCodec) where
  pub drain_fuel :
      (n m : ℕ) (buf : Bytes)
      → length buf ≤ n
      → length buf ≤ m
      → drain_within n codec buf ≡ drain_within m codec buf
  drain_fuel zero m buf h k = drain_nothing codec buf zero h ∙ sym (drain_nothing codec buf m h)
  drain_fuel (suc n) zero buf h k =
      drain_nothing codec buf (suc n) k ∙ sym (drain_nothing codec buf zero k)
  drain_fuel (suc n) (suc m) buf h k = elim (Option-cases (frame_of (decode codec buf))) [
    | inl e ↦ drain_none codec buf (suc n) e ∙ sym (drain_none codec buf (suc m) e)
    | inr (taken, e) ↦
        let s = shrinks codec buf taken.0 taken.1 e in
        let ih = drain_fuel n m taken.1 (omega arith) (omega arith) in
        rw (drain_some codec buf n taken.0 taken.1 e, drain_some codec buf m taken.0 taken.1 e, ih)
          refl
  ]

  pub drain_frame :
      (buf p rest : Bytes)
      → decode codec buf ≡ (frame p, rest)
      → drain codec buf ≡ (p ∷ (drain codec rest).0, (drain codec rest).1)
  unfolding frame_of
  drain_frame buf p rest e =
      let taken : frame_of (decode codec buf) ≡ some (p, rest) = rw (e, frame_of) refl in
      let s = shrinks codec buf p rest taken in
      drain_fuel (length buf) (suc (length buf)) buf (omega arith) (omega arith)
      ∙ rw
          (
            drain_some codec buf (length buf) p rest taken,
            drain_fuel (length buf) (length rest) rest (omega arith) (omega arith),
          )
          refl

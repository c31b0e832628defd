-- ===== src/Common/Codec/Chunks.antt =====
-- crates/rdesk_common/src/bytes_codec.rs: a reader whose bytes come in chunks.
use rdesk.Prelude.{
  ℕ, zero, suc, ◌+◌, ◌≤◌, ◌≡◌, refl, sym, ap, ◌∙◌, List, [], ◌∷◌, ◌++◌, arith, length, Bytes,
  append_assoc, append-nil, concat, length-append, Option-cases, inl, inr,
}
use rdesk.Common.Codec.{BytesCodec, decode}
use rdesk.Common.Codec.Frames.{
  drain, drain_within, drain_fuel, drain_none, drain_some, drain_nothing, shrinks, framed,
  is_framed, frame_of,
}

-- A reader that takes what it can after each chunk that arrives.
unfoldable pub receive : BytesCodec → Bytes → List Bytes → List Bytes × Bytes
receive codec buf [] = ([], buf)
receive codec buf (chunk ∷ chunks) =
    let taken = drain codec (buf ++ chunk) in
    let rest = receive codec taken.1 chunks in (taken.0 ++ rest.0, rest.1)

module _ (codec : BytesCodec) where
  abbrev prepend : List Bytes → List Bytes × Bytes → List Bytes × Bytes
  prepend ps r = (ps ++ r.0, r.1)

  drain_append :
      (n k : ℕ) (buf more : Bytes)
      → length buf ≤ n
      → length buf + length more ≤ k
      → drain_within k codec (buf ++ more)
        ≡ prepend (drain_within n codec buf).0 (drain codec ((drain_within n codec buf).1 ++ more))
  unfolding frame_of
  drain_append zero k buf more h hk =
      rw (drain_nothing codec buf zero h)
        (drain_fuel codec k _ (buf ++ more) (omega (arith, length-append buf more)) (omega arith))
  drain_append (suc n) zero buf more h hk =
      rw (drain_nothing codec buf (suc n) (omega arith)) (
        drain_fuel codec zero _ (buf ++ more) (omega (arith, length-append buf more)) (omega arith))
  drain_append (suc n) (suc k) buf more h hk = elim (Option-cases (frame_of (decode codec buf))) [
    | inl e ↦ rw (drain_none codec buf (suc n) e) (
        drain_fuel codec (suc k) _ (buf ++ more) (omega (arith, length-append buf more))
          (omega arith))
    | inr (taken, e) ↦
        let s = shrinks codec buf taken.0 taken.1 e in
        let ih = drain_append n k taken.1 more (omega arith) (omega arith) in
        let g = framed codec buf taken.0 taken.1 more (is_framed codec buf taken.0 taken.1 e) in
        rw
          (
            drain_some codec buf n taken.0 taken.1 e,
            drain_some codec (buf ++ more) k taken.0 (taken.1 ++ more) (rw (g, frame_of) refl),
            ih,
          )
          refl
  ]

  prepend_assoc :
      (ps qs : List Bytes) (r : List Bytes × Bytes)
      → prepend (ps ++ qs) r ≡ prepend ps (prepend qs r)
  prepend_assoc ps qs r = ap (λ l. (l, r.1)) (append_assoc ps qs r.0)

  receive_after :
      (buf : Bytes) (chunks : List Bytes)
      → prepend (drain codec buf).0 (receive codec (drain codec buf).1 chunks)
        ≡ drain codec (buf ++ concat chunks)
  unfolding receive concat
  receive_after buf [] =
      rw (append-nil buf) (ap (λ l. (l, (drain codec buf).1)) (append-nil (drain codec buf).0))
  receive_after buf (chunk ∷ chunks) =
      let left = (drain codec buf).1 in
      ap (prepend (drain codec buf).0) (receive_after (left ++ chunk) chunks)
      ∙ rw (append_assoc left chunk (concat chunks)) (
          sym (
            drain_append (length buf) (length (buf ++ (chunk ++ concat chunks))) buf
              (chunk ++ concat chunks) (omega arith)
              (omega (arith, length-append buf (chunk ++ concat chunks)))))

  -- However the bytes are cut into chunks, the reader gets the frames of the whole, and keeps what
  -- is left of it.
  pub receive_chunks : (chunks : List Bytes) → receive codec [] chunks ≡ drain codec (concat chunks)
  unfolding drain_within
  receive_chunks chunks = receive_after [] chunks

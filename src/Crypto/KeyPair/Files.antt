-- ===== src/Crypto/KeyPair/Files.antt =====
-- crates/rdesk_crypto/src/keypair.rs: saving and loading.
use rdesk.Prelude.{
  ◌≡◌, refl, ◌∙◌, ap, sym, Bool, true, false, Option, none, some, arith, length, Bytes, IsBytes,
  Option-cases, inl, inr,
}
use rdesk.Crypto.Hex.{hex_encode}
use rdesk.Crypto.Hex.RoundTrip.{hex_decode-hex_encode}
use rdesk.Crypto.KeyPair.{
  KeyPair, KeyPairFile, Storage, Label, public_label, private_label, KeyError, ok, decode_hex_key,
  store, save_keypair, load_keypair, and_then,
}

-- A key as bytes.
pub record IsKey (key : Bytes) : Type 0 where
  pub bytes : IsBytes key
  pub size : length key ≡ 32

-- What the calls document: what is written is read, until it is written again, and what is printed
-- is parsed.
pub record IsStorage (S : Storage) : Type 0 where
  pub write_lem :
      (bytes : Bytes) (fs fs' : S.FileSystem)
      → S.write bytes fs ≡ (fs', true)
      → S.read_to_string fs' ≡ some bytes
  pub restrict_lem :
      (fs fs' : S.FileSystem)
      → S.restrict fs ≡ (fs', true)
      → S.read_to_string fs' ≡ S.read_to_string fs
  pub json_lem :
      (file : KeyPairFile) (json : Bytes)
      → S.to_json file ≡ some json
      → S.from_json json ≡ some file

decode_hex_key-encode :
    (key : Bytes) (label : Label) → IsKey key → decode_hex_key (hex_encode key) label ≡ ok key
unfolding decode_hex_key
decode_hex_key-encode key label k =
    rw (decode_hex_key, hex_decode-hex_encode key k.bytes) (ground (arith, k.size))

module _ (S : Storage) (is : IsStorage S) where
  succeeds :
      (p : S.FileSystem × Bool) (f : S.FileSystem → S.FileSystem × Option KeyError)
      (fs' : S.FileSystem)
      → and_then S p f ≡ (fs', none)
      → (p ≡ (p.0, true)) × (f p.0 ≡ (fs', none))
  succeeds (fs, true) f fs' e = (refl, e)
  succeeds (fs, false) f fs' e = absurd (ground arith)

  stored :
      (json : Bytes) (fs fs' : S.FileSystem)
      → store S json fs ≡ (fs', none)
      → S.read_to_string fs' ≡ some json
  unfolding store
  stored json fs fs' e =
      let made = succeeds (S.create_parent fs) _ fs' e in
      let written = succeeds (S.write json (S.create_parent fs).0) _ fs' made.1 in
      let left = (S.write json (S.create_parent fs).0).0 in
      let restricted = succeeds (S.restrict left) _ fs' written.1 in
      let same : (S.restrict left).0 ≡ fs' = ap (λ p. p.0) restricted.1 in
      ap S.read_to_string (sym same)
      ∙ is.restrict_lem left (S.restrict left).0 restricted.0
      ∙ is.write_lem json (S.create_parent fs).0 left written.0

  -- If the file system and the JSON library behave as `IsStorage` says, a pair of keys of 32
  -- bytes that was saved without an error is what is loaded afterwards.
  pub load_keypair-save_keypair :
      (keypair : KeyPair) (fs fs' : S.FileSystem)
      → IsKey keypair.public
      → IsKey keypair.private
      → save_keypair S keypair fs ≡ (fs', none)
      → load_keypair S fs' ≡ ok keypair
  unfolding save_keypair load_keypair
  load_keypair-save_keypair keypair fs fs' kp ks e =
      let file : KeyPairFile = record {
        public_key = hex_encode keypair.public;
        private_key = hex_encode keypair.private;
      } in
      elim (Option-cases (S.to_json file)) [
        | inl n ↦ absurd (ground arith)
        | inr (json, j) ↦
            let w : store S json fs ≡ (fs', none) = ground arith in
            rw
              (
                stored json fs fs' w,
                is.json_lem file json j,
                decode_hex_key-encode keypair.public public_label kp,
                decode_hex_key-encode keypair.private private_label ks,
              )
              refl
      ]

-- ===== src/Crypto/KeyPair.antt =====
-- crates/rdesk_crypto/src/keypair.rs: key pairs and the file that holds one.
--
-- `serde_json` and the file system stand outside: a `Storage` has their calls, for the one path that
-- is used. A call on the file system leaves a next state whether or not it succeeds.
pub mod Files
use rdesk.Prelude.{
  ℕ, Bool, true, false, ◌==◌, if◌then◌else◌, Option, none, some, List, [], ◌∷◌, length, Bytes,
}
use rdesk.Crypto.Hex.{Hex, decoded, odd_length, invalid, panicked, hex_decode, hex_encode}

pub record KeyPair : Type 0 where
  pub public : Bytes
  pub private : Bytes

pub record KeyPairFile : Type 0 where
  pub public_key : Bytes
  pub private_key : Bytes

pub record Storage : Type 1 where
  pub FileSystem : Type 0
  pub create_parent : FileSystem → FileSystem × Bool
  pub write : Bytes → FileSystem → FileSystem × Bool
  pub restrict : FileSystem → FileSystem × Bool
  pub read_to_string : FileSystem → Option Bytes
  pub to_json : KeyPairFile → Option Bytes
  pub from_json : Bytes → Option KeyPairFile

pub data Label : Type 0 where
  public_label private_label : Label

pub data KeyError : Type 0 where
  serialization io : KeyError
  invalid_hex : Label → KeyError
  wrong_length : Label → ℕ → KeyError

pub data KeyResult {ℓ} (A : Type ℓ) : Type ℓ where
  ok : A → KeyResult A
  err : KeyError → KeyResult A
  panics : KeyResult A

abbrev pub or_error {ℓ} : {A : Type ℓ} → KeyError → Option A → KeyResult A
or_error e none = err e
or_error e (some a) = ok a

infixl 20 ◌>>=◌
abbrev pub ◌>>=◌ {ℓ κ} : {A : Type ℓ} {B : Type κ} → KeyResult A → (A → KeyResult B) → KeyResult B
err e >>= f = err e
panics >>= f = panics
ok a >>= f = f a

unfoldable pub from_bytes : Bytes → Bytes → KeyPair
from_bytes public private = record { public = public; private = private }

abbrev pub sized : Label → Bytes → KeyResult Bytes
sized label bytes = if length bytes == 32 then ok bytes else err (wrong_length label (length bytes))

unfoldable pub decode_hex_key : Bytes → Label → KeyResult Bytes
decode_hex_key hex_str label = elim (hex_decode hex_str) [
  | decoded bytes ↦ sized label bytes
  | odd_length ↦ err (invalid_hex label)
  | invalid ↦ err (invalid_hex label)
  | panicked ↦ panics
]

module _ (S : Storage) where
  -- The calls on the file system, each after the one before has succeeded.
  abbrev pub and_then :
      S.FileSystem × Bool
      → (S.FileSystem → S.FileSystem × Option KeyError)
      → S.FileSystem × Option KeyError
  and_then (fs, true) f = f fs
  and_then (fs, false) f = (fs, some io)

  unfoldable pub store : Bytes → S.FileSystem → S.FileSystem × Option KeyError
  store json fs = and_then (S.create_parent fs) (λ made.
      and_then (S.write json made)
        (λ written. and_then (S.restrict written) (λ restricted. (restricted, none))))

  unfoldable pub save_keypair : KeyPair → S.FileSystem → S.FileSystem × Option KeyError
  unfolding store
  save_keypair keypair fs =
      let file : KeyPairFile = record {
        public_key = hex_encode keypair.public;
        private_key = hex_encode keypair.private;
      } in
      elim (S.to_json file) [ none ↦ (fs, some serialization) | some json ↦ store json fs ]

  unfoldable pub load_keypair : S.FileSystem → KeyResult KeyPair
  unfolding decode_hex_key from_bytes
  load_keypair fs = do
    bytes ← or_error io (S.read_to_string fs)
    file ← or_error serialization (S.from_json bytes)
    public ← decode_hex_key file.public_key public_label
    private ← decode_hex_key file.private_key private_label
    ok (from_bytes public private)

-- ===== src/Tests/Crypto.antt =====
-- The theorems on digests, logins, keys and handshakes, at concrete data.
use rdesk.Crypto.Hex.{hex_decode}
use rdesk.Crypto.Sha256.{compress}
use rdesk.Prelude.{
  ℕ, zero, suc, ◌<◌, ◌≡◌, ◌↔◌, refl, sym, ap, true, false, Option, none, some, [], ◌∷◌, ◌++◌, arith,
  length, take, drop, take-append_self, drop-append_self, Bytes, IsBytes, concat,
}
use rdesk.Crypto.Sha256.{new, finalize, sha256, sha256_concat}
use rdesk.Crypto.Sha256.Streaming.{update_all, finalize-update_all}
use rdesk.Crypto.Hex.{hex_encode}
use rdesk.Crypto.Auth.{create_login_hash, verify_login_hash}
use rdesk.Crypto.Auth.Login.{login_iff}
use rdesk.Crypto.KeyPair.{KeyPair, KeyPairFile, Storage, ok, save_keypair, load_keypair}
use rdesk.Crypto.KeyPair.Files.{IsStorage, load_keypair-save_keypair}
use rdesk.Crypto.Noise.{Snow}
use rdesk.Crypto.Noise.Handshake.{IsSnow, Carried, handshake_completes}

abbrev abc : Bytes
abc = b'a' ∷ b'b' ∷ b'c' ∷ []

-- The vectors that the tests of the two files have.
sha256-abc :
    hex_encode (sha256 abc)
    ≡ hex_encode (
        0xba ∷ 0x78 ∷ 0x16 ∷ 0xbf ∷ 0x8f ∷ 0x01 ∷ 0xcf ∷ 0xea ∷ 0x41 ∷ 0x41 ∷ 0x40 ∷ 0xde ∷ 0x5d
        ∷ 0xae ∷ 0x22 ∷ 0x23 ∷ 0xb0 ∷ 0x03 ∷ 0x61 ∷ 0xa3 ∷ 0x96 ∷ 0x17 ∷ 0x7a ∷ 0x9c ∷ 0xb4 ∷ 0x10
        ∷ 0xff ∷ 0x61 ∷ 0xf2 ∷ 0x00 ∷ 0x15 ∷ 0xad ∷ [])
unfolding sha256 compress
sha256-abc = refl

finalize-update_all_example :
    finalize (update_all new ((b'a' ∷ []) ∷ (b'b' ∷ b'c' ∷ []) ∷ [])) ≡ sha256 abc
unfolding concat
finalize-update_all_example = finalize-update_all ((b'a' ∷ []) ∷ (b'b' ∷ b'c' ∷ []) ∷ [])

login_iff_example :
    (verify_login_hash (hex_encode (sha256 abc)) (1 ∷ []) (create_login_hash abc (1 ∷ []))
      ≡ some true)
    ↔ (sha256 (abc ++ 1 ∷ []) ≡ sha256 (sha256 abc ++ 1 ∷ []))
login_iff_example = login_iff abc (1 ∷ [])

-- The login that the file's own test makes, with the password `s3cret!`, is refused.
abbrev secret : Bytes
secret = b's' ∷ b'3' ∷ b'c' ∷ b'r' ∷ b'e' ∷ b't' ∷ b'!' ∷ []

abbrev nonce : Bytes
nonce =
    b'r' ∷ b'a' ∷ b'n' ∷ b'd' ∷ b'o' ∷ b'm' ∷ b'_' ∷ b'n' ∷ b'o' ∷ b'n' ∷ b'c' ∷ b'e' ∷ b'_' ∷ b'v'
    ∷ b'a' ∷ b'l' ∷ b'u' ∷ b'e' ∷ []

login_refused :
    verify_login_hash (hex_encode (sha256 secret)) nonce (create_login_hash secret nonce)
    ≡ some false
unfolding verify_login_hash hex_decode hex_encode sha256 compress sha256_concat create_login_hash
login_refused = refl

-- A disk with one file, and a text that tells where the first key ends.
abbrev print_file : KeyPairFile → Bytes
print_file file = length file.public_key ∷ (file.public_key ++ file.private_key)

abbrev parse_file : Bytes → Option KeyPairFile
parse_file [] = none
parse_file (n ∷ keys) = some (record { public_key = take n keys; private_key = drop n keys })

abbrev disk : Storage
disk = record {
  FileSystem = Option Bytes;
  create_parent = λ fs. (fs, true);
  write = λ bytes fs. (some bytes, true);
  restrict = λ fs. (fs, true);
  read_to_string = λ fs. fs;
  to_json = λ file. some (print_file file);
  from_json = parse_file;
}

print-parse :
    (file : KeyPairFile) (json : Bytes)
    → some (print_file file) ≡ some json
    → parse_file json ≡ some file
print-parse file json e =
    let same : print_file file ≡ json = cc e in
    rw
      (
        sym same,
        take-append_self file.public_key file.private_key,
        drop-append_self file.public_key file.private_key,
      )
      refl

abbrev disk-IsStorage : IsStorage disk
disk-IsStorage = record {
  write_lem = λ bytes fs fs' e. sym (ap (λ p. p.0) e);
  restrict_lem = λ fs fs' e. sym (ap (λ p. p.0) e);
  json_lem = print-parse;
}

abbrev repeated : ℕ → ℕ → Bytes
repeated zero b = []
repeated (suc n) b = b ∷ repeated n b

repeated-IsBytes : (n b : ℕ) → b < 256 → IsBytes (repeated n b)
repeated-IsBytes zero b h = tt
repeated-IsBytes (suc n) b h = (h, repeated-IsBytes n b h)

abbrev pair : KeyPair
pair = record { public = repeated 32 7; private = repeated 32 200 }

load_keypair-save_keypair_example :
    load_keypair disk (
      some (
        print_file
          (record { public_key = hex_encode pair.public; private_key = hex_encode pair.private })))
    ≡ ok pair
unfolding save_keypair
load_keypair-save_keypair_example =
    load_keypair-save_keypair disk disk-IsStorage pair none _
      (record { bytes = repeated-IsBytes 32 7 (omega arith); size = refl })
      (record { bytes = repeated-IsBytes 32 200 (omega arith); size = refl }) refl

-- States that count the messages, and messages that tell the count.
abbrev counting : Snow
counting = record {
  HandshakeState = ℕ;
  TransportState = Unit;
  new_initiator = λ key. some 0;
  new_responder = λ key. some 0;
  write_message = λ payload size n. some (n ∷ [], suc n);
  read_message = λ message size n. some ([], suc n);
  into_transport_mode = λ n. some tt;
  seal = λ plain size t. some (plain, t);
  unseal = λ cipher size t. some (cipher, t);
}

sealed : (p q : Bytes × Unit {0}) → some p ≡ some q → q.0 ≡ p.0
sealed p q e = cc e

abbrev counting-IsSnow : IsSnow counting
counting-IsSnow = record {
  After = λ n a b. (a ≡ n) × (b ≡ n);
  Ends = λ s t. Unit;
  begin_lem = λ i r hi hr. (0, 0, refl, refl, (refl, refl));
  turn_lem = λ n a b k h. (a ∷ [], [], suc a, suc b, refl, refl, (ap suc h.1, ap suc h.0));
  end_lem = λ a b h. (tt, tt, refl, refl, tt);
  seal_lem = λ plain cipher s s' t ends e.
      (t, ap (λ c. some (c, t)) (sealed (plain, s) (cipher, s') e), tt);
}

handshake_completes_example : Carried counting counting-IsSnow (repeated 32 1) (repeated 32 2)
handshake_completes_example =
    handshake_completes counting counting-IsSnow (repeated 32 1) (repeated 32 2) refl refl

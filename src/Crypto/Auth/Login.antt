-- ===== src/Crypto/Auth/Login.antt =====
-- crates/rdesk_crypto/src/auth.rs: which logins are accepted.
use rdesk.Prelude.{◌≡◌, ◌↔◌, refl, true, false, some, [], ◌∷◌, ◌++◌, arith, length, Bytes, IsBytes}
use rdesk.Crypto.Sha256.{sha256}
use rdesk.Crypto.Sha256.Streaming.{sha256_concat_lem, sha256-IsDigest}
use rdesk.Crypto.Hex.{hex_encode}
use rdesk.Crypto.Hex.RoundTrip.{hex_decode-hex_encode}
use rdesk.Crypto.Auth.{create_login_hash, differ, constant_time_eq, verify_login_hash}

differ_stays : (a b : Bytes) → differ true a b ≡ true
unfolding differ
differ_stays [] b = refl
differ_stays (x ∷ a) [] = refl
differ_stays (x ∷ a) (y ∷ b) = differ_stays a b

same_of_differ : (a b : Bytes) → length a ≡ length b → differ false a b ≡ false → a ≡ b
unfolding differ
same_of_differ [] [] e h = refl
same_of_differ [] (y ∷ b) e h = absurd (omega arith)
same_of_differ (x ∷ a) [] e h = absurd (omega arith)
same_of_differ (x ∷ a) (y ∷ b) e h = ground (arith, differ_stays a b, same_of_differ a b)

differ_self : (a : Bytes) → differ false a a ≡ false
unfolding differ
differ_self [] = refl
differ_self (x ∷ a) = ground (arith, differ_self a)

-- The comparison that looks at every pair, whatever it has seen, says exactly whether the two are
-- the same.
pub constant_time_eq_iff : (a b : Bytes) → (constant_time_eq a b ≡ true) ↔ (a ≡ b)
unfolding constant_time_eq
constant_time_eq_iff a b =
    (λ h. same_of_differ a b (ground arith) (ground arith), λ e. ground (arith, differ_self a))

-- A stored hash that is the text of bytes accepts exactly the digest of those bytes and the nonce.
pub verify_login_hash_iff :
    (stored nonce received : Bytes)
    → IsBytes stored
    → (verify_login_hash (hex_encode stored) nonce received ≡ some true)
      ↔ (received ≡ sha256 (stored ++ nonce))
unfolding verify_login_hash
verify_login_hash_iff stored nonce received h =
    rw (verify_login_hash, hex_decode-hex_encode stored h, sha256_concat_lem stored nonce)
      (ground (arith, constant_time_eq_iff (sha256 (stored ++ nonce)) received))

-- A client that answers with `create_login_hash` of the very password whose SHA-256 is stored is let
-- in only where the digest of the password and the nonce is also the digest of the password's
-- digest and the nonce.
pub login_iff :
    (password nonce : Bytes)
    → (verify_login_hash (hex_encode (sha256 password)) nonce (create_login_hash password nonce)
        ≡ some true)
      ↔ (sha256 (password ++ nonce) ≡ sha256 (sha256 password ++ nonce))
unfolding create_login_hash
login_iff password nonce = rw (sha256_concat_lem password nonce) (
    verify_login_hash_iff (sha256 password) nonce (sha256 (password ++ nonce))
      (sha256-IsDigest password).1)

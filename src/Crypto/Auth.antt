-- ===== src/Crypto/Auth.antt =====
-- crates/rdesk_crypto/src/auth.rs: logins by a password and a nonce.
pub mod Login
use rdesk.Prelude.{
  ℕ, Bool, true, false, ◌==◌, ◌&&◌, ◌||◌, not, if◌then◌else◌, Option, none, some, List, [], ◌∷◌,
  length, Bytes,
}
use rdesk.Crypto.Sha256.{sha256_concat}
use rdesk.Crypto.Hex.{Hex, decoded, odd_length, invalid, panicked, hex_decode}

pub data AuthState : Type 0 where
  waiting_for_handshake handshake_complete authenticated failed : AuthState

unfoldable pub create_login_hash : Bytes → Bytes → Bytes
create_login_hash password nonce = sha256_concat password nonce

-- The fold of `constant_time_eq` over the pairs: `n` says whether a pair has differed so far, which
-- the source keeps as the bits in which pairs differed.
unfoldable pub differ : Bool → Bytes → Bytes → Bool
differ n [] b = n
differ n (x ∷ a) [] = n
differ n (x ∷ a) (y ∷ b) = differ (n || not (x == y)) a b

unfoldable pub constant_time_eq : Bytes → Bytes → Bool
unfolding differ
constant_time_eq a b = if not (length a == length b) then false else not (differ false a b)

-- `verify_login_hash`; none where a slice of the stored text panics.
unfoldable pub verify_login_hash : Bytes → Bytes → Bytes → Option Bool
unfolding constant_time_eq
verify_login_hash password_hash nonce received_hash = elim (hex_decode password_hash) [
  | decoded stored_bytes ↦ some (constant_time_eq (sha256_concat stored_bytes nonce) received_hash)
  | odd_length ↦ some false
  | invalid ↦ some false
  | panicked ↦ none
]

-- ===== src/Wake/Pairing/Proofs.antt =====
-- crates/rdesk_server/src/wake/pairing.rs: the proofs that a phone and a computer show, and the
-- checks of an enrolment. `digest` is the SHA-256 of a text.
pub mod Equal
use rdesk.Prelude.{
  ℕ, ◌-◌, ◌==◌, Text, text_eq, codes, byte_len, Bool, false, ◌&&◌, ◌||◌, not, Option, none, some,
  [], ◌∷◌, map, leb, if◌then◌else◌, any, all, is_some,
}
use rdesk.Map
use rdesk.Map.{Map}
use rdesk.Server.State.{AppState, AuthSession, auth_session_ttl_ms}
use rdesk.Wake.Model.{WakeResult, ok, err, WakeError, not_found, conflict}
use rdesk.Wake.Pairing.State.{Pairing}

-- The fold of `equal` over the pairs: `n` says whether a pair has differed so far, which the source
-- keeps as the bits in which pairs differed.
unfoldable pub differ : Bool → Text → Text → Bool
differ n [] b = n
differ n (x ∷ a) [] = n
differ n (x ∷ a) (y ∷ b) = differ (n || not (x == y)) a b

-- `equal`, the comparison in constant time.
unfoldable pub equal : Text → Text → Bool
unfolding differ byte_len
equal a b = byte_len a == byte_len b && not (differ false a b)

abbrev pub is_hex_digit : ℕ → Bool
is_hex_digit b =
    (leb b'0' b && leb b b'9') || (leb b'a' b && leb b b'f') || (leb b'A' b && leb b b'F')

unfoldable pub valid_proof : Text → Bool
unfolding byte_len
valid_proof p = byte_len p == 64 && all is_hex_digit p

-- `to_ascii_uppercase`.
abbrev pub to_upper : ℕ → ℕ
to_upper c = if leb b'a' c && leb c b'z' then c - 32 else c

abbrev pub alphabet : Text
alphabet = codes "ABCDEFGHJKLMNPQRSTUVWXYZ23456789"

unfoldable pub manual : Text → Option Text
unfolding byte_len
manual raw =
    if byte_len (map to_upper raw) == 16 && all (λ b. any (λ a. a == b) alphabet) (map to_upper raw)
    then some (map to_upper raw)
    else none

pub record PhoneProof : Type 0 where
  pub id : Option Text
  pub qr_proof : Option Text
  pub manual_code : Option Text

pub data PairingPhase : Type 0 where
  expired claimed confirmed pending : PairingPhase

-- `Pairing::phase`.
unfoldable pub phase : ℕ → Pairing → PairingPhase
phase now p =
    if leb p.expires now
    then expired
    else if is_some p.claimed
    then claimed
    else if p.confirmed
    then confirmed
    else pending

pub record Summary : Type 0 where
  pub id : Text
  pub name : Text
  pub device_id : Text
  pub state : PairingPhase
  pub expires_at_ms : ℕ
  pub target_id : Option Text

abbrev pub claimed_target : Option (Text × Text) → Option Text
claimed_target none = none
claimed_target (some c) = some c.0

unfoldable pub summary : ℕ → Text → Pairing → Summary
unfolding phase
summary now id p = record {
  id = id;
  name = p.name;
  device_id = p.device_id;
  state = phase now p;
  expires_at_ms = p.expires;
  target_id = claimed_target p.claimed;
}

module _ (digest : Text → Text) where
  unfoldable pub phone_matches : Pairing → Option Text → Option Text → Bool
  unfolding valid_proof manual
  phone_matches p (some qr) none = valid_proof qr && equal (digest qr) p.qr_hash
  phone_matches p none (some raw) = elim (manual raw) [
    | none ↦ false
    | some c ↦ equal (digest c) p.manual_hash
  ]
  phone_matches p (some qr) (some raw) = false
  phone_matches p none none = false

  -- `creator_valid`: the session that made the enrolment is still there, and in time.
  unfoldable pub session_of : ℕ → Pairing → Map AuthSession → Bool
  session_of now p [] = false
  session_of now p ((token, a) ∷ rest) =
      (text_eq a.user_id p.owner
        && leb (now - a.last_seen_ms) auth_session_ttl_ms
        && equal (digest token) p.creator)
      || session_of now p rest

  unfoldable pub creator_valid : ℕ → Pairing → AppState → Bool
  unfolding session_of
  creator_valid now p s = Map.contains_key p.owner s.users && session_of now p s.auth_sessions

  -- `Pairing::valid`.
  unfoldable pub valid : ℕ → Text → Pairing → AppState → WakeResult (Unit {0})
  unfolding creator_valid
  valid now owner p s =
      if not (text_eq p.owner owner)
      then err not_found
      else if leb p.expires now
      then err WakeError.expired
      else if p.cancelled || not (creator_valid now p s)
      then err conflict
      else ok tt

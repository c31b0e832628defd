-- ===== src/Wake/Pairing/Proofs/Equal.antt =====
-- crates/rdesk_server/src/wake/pairing.rs, `equal`: the comparison in constant time.
use rdesk.Prelude.{ℕ, ◌≡◌, ◌↔◌, ◌<◌, refl, Text, true, false, [], ◌∷◌, arith, byte_len, char_len}
use rdesk.Wake.Pairing.Proofs.{differ, equal}

-- A pair that differed stays noted.
differ_stays : (a b : Text) → differ true a b ≡ true
unfolding differ
differ_stays [] b = refl
differ_stays (x ∷ a) [] = refl
differ_stays (x ∷ a) (y ∷ b) = differ_stays a b

char_len-pos : (c : ℕ) → 0 < char_len c
char_len-pos c = ground arith

same_of_differ : (a b : Text) → byte_len a ≡ byte_len b → differ false a b ≡ false → a ≡ b
unfolding differ byte_len
same_of_differ [] [] e h = refl
same_of_differ [] (y ∷ b) e h = absurd (omega (arith, char_len-pos y, e))
same_of_differ (x ∷ a) [] e h = absurd (omega (arith, char_len-pos x, e))
same_of_differ (x ∷ a) (y ∷ b) e h = ground (arith, differ_stays a b, same_of_differ a b)

differ_refl : (a : Text) → differ false a a ≡ false
unfolding differ
differ_refl [] = refl
differ_refl (x ∷ a) = ground (arith, differ_refl a)

-- The comparison in constant time, which looks at every pair of characters whatever it has seen, says
-- exactly whether two texts are the same.
pub equal_iff : (a b : Text) → (equal a b ≡ true) ↔ (a ≡ b)
unfolding equal
equal_iff a b =
    (λ h. same_of_differ a b (ground arith) (ground arith), λ e. ground (arith, differ_refl a))

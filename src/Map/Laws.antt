-- ===== src/Map/Laws.antt =====
-- What a lookup sees after each operation on a map.
use rdesk.Prelude.{
  ℕ, ◌≤◌, ◌+◌, Text, text_eq, text_eq_iff, text_eq_refl, ◌≡◌, ◌≢◌, refl, Bool, true, false, Option,
  none, some, List, [], ◌∷◌, arith, if◌then◌else◌, keep_if, length, not, ◌⊎◌, inl, inr, Bool-cases,
}
use rdesk.Map.{Map, get, insert, remove, retain, map_values}

module _ {ℓ} {V : Type ℓ} where
  pub get-insert :
      (j k : Text) (v : V) (m : Map V)
      → get j (insert k v m) ≡ (if text_eq k j then some v else get j m)
  unfolding get insert
  get-insert j k v [] = refl
  get-insert j k v ((i, w) ∷ m) =
      ground (arith, text_eq_iff k j, text_eq_iff i k, text_eq_iff i j, get-insert j k v m)

  pub get-remove :
      (j k : Text) (m : Map V) → get j (remove k m) ≡ (if text_eq k j then none else get j m)
  unfolding get remove
  get-remove j k [] = ground arith
  get-remove j k ((i, w) ∷ m) =
      ground (arith, text_eq_iff k j, text_eq_iff i k, text_eq_iff i j, get-remove j k m)

  pub get-retain :
      (j : Text) (p : Text → V → Bool) (m : Map V) → get j (retain p m) ≡ keep_if (p j) (get j m)
  unfolding get retain
  get-retain j p [] = refl
  get-retain j p ((k, v) ∷ m) =
      ground (arith, text_eq_iff k j, get-retain j p m, get-remove j k (retain p m))

  pub get-map_values :
      (j : Text) (f : V → V) (m : Map V)
      → get j (map_values f m) ≡ elim (get j m) [ none ↦ none | some v ↦ some (f v) ]
  unfolding get map_values
  get-map_values j f [] = refl
  get-map_values j f ((k, v) ∷ m) = ground (arith, get-map_values j f m)

  pub length-remove : (k : Text) (m : Map V) → length (remove k m) ≤ length m
  unfolding remove
  length-remove k [] = omega arith
  length-remove k ((i, w) ∷ m) = ground (arith, length-remove k m)

  pub length-retain : (p : Text → V → Bool) (m : Map V) → length (retain p m) ≤ length m
  unfolding retain
  length-retain p [] = omega arith
  length-retain p ((k, v) ∷ m) = ground (arith, length-retain p m, length-remove k (retain p m))

  pub length-insert : (k : Text) (v : V) (m : Map V) → length (insert k v m) ≤ length m + 1
  unfolding insert
  length-insert k v [] = omega arith
  length-insert k v ((i, w) ∷ m) = ground (arith, length-insert k v m)

pub ruleset map_laws = (get-insert, get-remove, get-retain, text_eq_refl)

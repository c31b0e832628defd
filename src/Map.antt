-- ===== src/Map.antt =====
-- A DashMap or HashMap with text keys, as an association list. Its order stands for the order in
-- which an iteration meets the entries. The laws are in the module below.
pub mod Laws
use rdesk.Prelude.{
  ℕ, Text, text_eq, Bool, true, false, ◌||◌, not, Option, none, some, List, [], ◌∷◌, length,
  if◌then◌else◌, is_some,
}

abbrev pub Map {ℓ} : Type ℓ → Type ℓ
Map V = List (Text × V)

module _ {ℓ} {V : Type ℓ} where
  unfoldable pub get : Text → Map V → Option V
  get j [] = none
  get j ((k, v) ∷ m) = if text_eq k j then some v else get j m

  unfoldable pub insert : Text → V → Map V → Map V
  insert k v [] = (k, v) ∷ []
  insert k v ((i, w) ∷ m) = if text_eq i k then (k, v) ∷ m else (i, w) ∷ insert k v m

  unfoldable pub remove : Text → Map V → Map V
  remove k [] = []
  remove k ((i, w) ∷ m) = if text_eq i k then remove k m else (i, w) ∷ remove k m

  -- A key whose entry is dropped is gone: `remove` matters only if a key stood twice.
  unfoldable pub retain : (Text → V → Bool) → Map V → Map V
  unfolding remove
  retain p [] = []
  retain p ((k, v) ∷ m) = if p k v then (k, v) ∷ retain p m else remove k (retain p m)

  -- The first entry, in the order of the iteration, that passes the test.
  unfoldable pub find_entry : (Text → V → Bool) → Map V → Option (Text × V)
  find_entry p [] = none
  find_entry p ((k, v) ∷ m) = if p k v then some (k, v) else find_entry p m

  unfoldable pub values : Map V → List V
  values [] = []
  values ((k, v) ∷ m) = v ∷ values m

  unfoldable pub keys : Map V → List Text
  keys [] = []
  keys ((k, v) ∷ m) = k ∷ keys m

  abbrev pub contains_key : Text → Map V → Bool
  contains_key k m = is_some (get k m)

  abbrev pub size : Map V → ℕ
  size m = length m

  unfoldable pub any_value : (V → Bool) → Map V → Bool
  any_value p [] = false
  any_value p ((k, v) ∷ m) = p v || any_value p m

  unfoldable pub map_values : (V → V) → Map V → Map V
  map_values f [] = []
  map_values f ((k, v) ∷ m) = (k, f v) ∷ map_values f m

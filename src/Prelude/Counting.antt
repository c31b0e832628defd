-- ===== src/Prelude/Counting.antt =====
-- How many elements of a list pass a test, and what holds of each, under the list operations that
-- the source uses.
use Prim.Native.Nat.{ℕ, zero, suc, ◌+◌, ◌≤◌}
use mathlib.Core.Path.{◌≡◌, refl}
use mathlib.Core.Bool.{Bool, true, false}
use mathlib.Core.List.{List, [], ◌∷◌, ◌++◌, map}
use mathlib.Core.Option.{none, some}
use native.Mathlib.Omega.{arith}
use rdesk.Prelude.Tests.{if◌then◌else◌}
use rdesk.Prelude.Lists.{All, keep, take, find, update_first}

module _ {ℓ} {A : Type ℓ} where
  abbrev pub count : (A → Bool) → List A → ℕ
  count p [] = 0
  count p (x ∷ xs) = (if p x then 1 else 0) + count p xs

  module _ (p : A → Bool) where
    pub count-append : (xs ys : List A) → count p (xs ++ ys) ≡ count p xs + count p ys
    count-append [] ys = omega arith
    count-append (x ∷ xs) ys = omega (arith, count-append xs ys)

    pub count-take-le : (n : ℕ) (xs : List A) → count p (take n xs) ≤ count p xs
    count-take-le zero xs = omega arith
    count-take-le (suc n) [] = omega arith
    count-take-le (suc n) (x ∷ xs) = omega (arith, count-take-le n xs)

    pub count-keep-le : (q : A → Bool) (xs : List A) → count p (keep q xs) ≤ count p xs
    count-keep-le q [] = omega arith
    count-keep-le q (x ∷ xs) = ground (arith, count-keep-le q xs)

    pub count-map-le :
        (f : A → A) (xs : List A)
        → ((x : A) → p (f x) ≡ true → p x ≡ true)
        → count p (map f xs) ≤ count p xs
    count-map-le f [] h = omega arith
    count-map-le f (x ∷ xs) h = ground (arith, count-map-le f xs h, h x)

    -- A write to the first element that passes `q`, which is `x`.
    pub count-update_first-le :
        (q : A → Bool) (f : A → A) (x : A) (xs : List A)
        → find q xs ≡ some x
        → (p (f x) ≡ true → p x ≡ true)
        → count p (update_first q f xs) ≤ count p xs
    count-update_first-le q f x [] e h = omega arith
    count-update_first-le q f x (y ∷ ys) e h = go (q y) e (count-update_first-le q f x ys)
      where
        go :
            (b : Bool)
            → (if b then some y else find q ys) ≡ some x
            → (find q ys ≡ some x
                → (p (f x) ≡ true → p x ≡ true)
                → count p (update_first q f ys) ≤ count p ys)
            → count p (if b then f y ∷ ys else y ∷ update_first q f ys) ≤ count p (y ∷ ys)
        go true e' ih = ground arith
        go false e' ih = omega (arith, ih e' h)

    pub count_of_find-none : (xs : List A) → find p xs ≡ none → count p xs ≡ 0
    count_of_find-none [] e = refl
    count_of_find-none (x ∷ xs) e = ground (arith, count_of_find-none xs)

  module _ {κ} (P : A → Type κ) where
    pub All-map :
        (f : A → A) (xs : List A) → ((x : A) → P x → P (f x)) → All P xs → All P (map f xs)
    All-map f [] h a = tt
    All-map f (x ∷ xs) h a = (h x a.0, All-map f xs h a.1)

    pub All-update_first :
        (q : A → Bool) (f : A → A) (x : A) (xs : List A)
        → find q xs ≡ some x
        → (P x → P (f x))
        → All P xs
        → All P (update_first q f xs)
    All-update_first q f x [] e h a = tt
    All-update_first q f x (y ∷ ys) e h a = go (q y) e (All-update_first q f x ys)
      where
        moved : some y ≡ some x → P (f y)
        moved e' = rw (some_inj e') (h (rw (some_inj e') at a.0))
          where
            some_inj : some y ≡ some x → y ≡ x
            some_inj r = cc r

        go :
            (b : Bool)
            → (if b then some y else find q ys) ≡ some x
            → (find q ys ≡ some x → (P x → P (f x)) → All P ys → All P (update_first q f ys))
            → All P (if b then f y ∷ ys else y ∷ update_first q f ys)
        go true e' ih = (moved e', a.1)
        go false e' ih = (a.0, ih e' h a.1)

  -- What is found passes the test.
  pub find_passes : (q : A → Bool) (x : A) (xs : List A) → find q xs ≡ some x → q x ≡ true
  find_passes q x [] e = cc
  find_passes q x (y ∷ ys) e = ground (arith, find_passes q x ys)

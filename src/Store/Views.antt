-- ===== src/Store/Views.antt =====
-- The tables as a client sees them, by key: what each kind of statement does to each lookup.
use jobplane.Base.{
  ℕ, ◌≡◌, refl, Bool, false, not, none, some, List, [], ◌∷◌, ◌++◌, arith, map, ◌==◌, if◌then◌else◌,
  any, first, select,
}
use mathlib.Core.Option

-- A second DELETE finds nothing.
pub select_twice : {A : Type 0} (p : A → Bool) (xs : List A) → select p (select p xs) ≡ select p xs
select_twice p [] = refl
select_twice p (x ∷ xs) = ground (arith, select_twice p xs)

module _ {A : Type 0} (key : A → ℕ) where
  -- UPDATE … WHERE key = i, of a column that is not the key.
  pub first-update :
      (i j : ℕ) (f : A → A) (xs : List A)
      → ((x : A) → key (f x) ≡ key x)
      → first (λ x. key x == j) (map (λ x. if key x == i then f x else x) xs)
        ≡ (if i == j then Option.map f (first (λ x. key x == j) xs) else first (λ x. key x == j) xs)
  first-update i j f [] keep = ground arith
  first-update i j f (x ∷ xs) keep = ground (arith, keep x, first-update i j f xs keep)

  -- DELETE … WHERE key = i.
  pub first-delete :
      (i j : ℕ) (xs : List A)
      → first (λ x. key x == j) (select (λ x. not (key x == i)) xs)
        ≡ (if i == j then none else first (λ x. key x == j) xs)
  first-delete i j [] = ground arith
  first-delete i j (x ∷ xs) = ground (arith, first-delete i j xs)

  -- DELETE … WHERE key = i, where no row has that key.
  pub select-missing :
      (i : ℕ) (xs : List A)
      → first (λ x. key x == i) xs ≡ none
      → select (λ x. not (key x == i)) xs ≡ xs
  select-missing i [] h = refl
  select-missing i (x ∷ xs) h = ground (arith, select-missing i xs)

  -- A second UPDATE to the same values changes nothing.
  pub update_twice :
      (i : ℕ) (f : A → A) (xs : List A)
      → ((x : A) → key (f x) ≡ key x)
      → ((x : A) → f (f x) ≡ f x)
      → map (λ x. if key x == i then f x else x) (map (λ x. if key x == i then f x else x) xs)
        ≡ map (λ x. if key x == i then f x else x) xs
  update_twice i f [] keep same = refl
  update_twice i f (x ∷ xs) keep same =
      ground (arith, keep x, same x, update_twice i f xs keep same)

  -- INSERT of a row whose key is new.
  pub first-insert :
      (j : ℕ) (xs : List A) (y : A)
      → any (λ x. key x == key y) xs ≡ false
      → first (λ x. key x == j) (xs ++ y ∷ [])
        ≡ (if key y == j then some y else first (λ x. key x == j) xs)
  first-insert j [] y h = refl
  first-insert j (x ∷ xs) y h = ground (arith, first-insert j xs y)

-- ===== src/Base/Keys.antt =====
-- Lists of rows told apart by a key, as a unique column tells the rows of a table apart.
use jobplane.Base.Tests.{◌==◌, ==_iff, Bool-cases}
use jobplane.Base.Lists.{any, first, select, All, All-unless, All-trivial}
use Prim.Native.Nat.{ℕ}
use mathlib.Core.Path.{◌≡◌, refl}
use mathlib.Core.Logic.{◌≢◌, inl, inr}
use mathlib.Core.Bool.{Bool, true, false}
use mathlib.Core.Option.{Option, none, some}
use mathlib.Core.Option
use mathlib.Core.List.{List, [], ◌∷◌, ◌++◌, map}
use native.Mathlib.Omega.{arith}

module _ {A : Type 0} where
  pub first_sound : (p : A → Bool) (xs : List A) (x : A) → first p xs ≡ some x → p x ≡ true
  first_sound p [] x h = cc
  first_sound p (y ∷ ys) x h = ground (arith, first_sound p ys x)

  pub first-any : (p : A → Bool) (xs : List A) (x : A) → first p xs ≡ some x → any p xs ≡ true
  first-any p [] x h = cc
  first-any p (y ∷ ys) x h = ground (arith, first-any p ys x)

  pub first-append_some :
      (p : A → Bool) (xs ys : List A) (x : A) → first p xs ≡ some x → first p (xs ++ ys) ≡ some x
  first-append_some p [] ys x h = cc
  first-append_some p (y ∷ xs) ys x h = ground (arith, first-append_some p xs ys x)

  pub first-append_fresh :
      (p : A → Bool) (xs ys : List A) → any p xs ≡ false → first p (xs ++ ys) ≡ first p ys
  first-append_fresh p [] ys h = refl
  first-append_fresh p (y ∷ xs) ys h = ground (arith, first-append_fresh p xs ys)

  pub first-map :
      (p : A → Bool) (f : A → A) (xs : List A)
      → ((x : A) → p (f x) ≡ p x)
      → first p (map f xs) ≡ Option.map f (first p xs)
  first-map p f [] keep = refl
  first-map p f (x ∷ xs) keep = ground (arith, keep x, first-map p f xs keep)

  pub any-map :
      (p : A → Bool) (f : A → A) (xs : List A)
      → ((x : A) → p (f x) ≡ p x)
      → any p (map f xs) ≡ any p xs
  any-map p f [] keep = refl
  any-map p f (x ∷ xs) keep = ground (arith, keep x, any-map p f xs keep)

  pub any-select : (p s : A → Bool) (xs : List A) → any p xs ≡ false → any p (select s xs) ≡ false
  any-select p s [] h = refl
  any-select p s (x ∷ xs) h = ground (arith, any-select p s xs)

  pub any-append_one :
      (p : A → Bool) (xs : List A) (y : A)
      → any p xs ≡ false
      → p y ≡ false
      → any p (xs ++ y ∷ []) ≡ false
  any-append_one p [] y h k = ground arith
  any-append_one p (x ∷ xs) y h k = ground (arith, any-append_one p xs y)

  pub any-append_hit :
      (p : A → Bool) (xs : List A) (y : A) → p y ≡ true → any p (xs ++ y ∷ []) ≡ true
  any-append_hit p [] y h = ground arith
  any-append_hit p (x ∷ xs) y h = ground (arith, any-append_hit p xs y h)

  pub any-append_some : (p : A → Bool) (xs ys : List A) → any p xs ≡ true → any p (xs ++ ys) ≡ true
  any-append_some p [] ys h = absurd (ground arith)
  any-append_some p (x ∷ xs) ys h = ground (arith, any-append_some p xs ys)

  -- A DELETE of other rows.
  pub any-select_keep :
      (p s : A → Bool) (xs : List A)
      → ((x : A) → p x ≡ true → s x ≡ true)
      → any p xs ≡ true
      → any p (select s xs) ≡ true
  any-select_keep p s [] keep h = absurd (ground arith)
  any-select_keep p s (x ∷ xs) keep h = ground (arith, any-select_keep p s xs keep, keep x)

  -- A member that passes is found.
  pub any-first : (p : A → Bool) (xs : List A) → any p xs ≡ true → (x : A) × (first p xs ≡ some x)
  any-first p [] h = absurd (ground arith)
  any-first p (x ∷ xs) h = elim (Bool-cases (p x)) [
    | inl hit ↦ (x, rw hit refl)
    | inr miss ↦ let (y, e) = any-first p xs (rw miss at h) in (y, rw miss e)
  ]

  -- After a DELETE no row meets its condition.
  pub any-select_not :
      (p s : A → Bool) (xs : List A)
      → ((x : A) → s x ≡ true → p x ≡ false)
      → any p (select s xs) ≡ false
  any-select_not p s [] h = refl
  any-select_not p s (x ∷ xs) h = ground (arith, any-select_not p s xs h, h x)

-- No two members have the same key.
abbrev pub Distinct : {A : Type 0} → (A → ℕ) → List A → Type 0
Distinct key [] = Unit
Distinct key (x ∷ xs) = (any (λ y. key y == key x) xs ≡ false) × Distinct key xs

module _ {A : Type 0} (key : A → ℕ) where
  pub Distinct-map :
      (f : A → A) (xs : List A)
      → ((x : A) → key (f x) ≡ key x)
      → Distinct key xs
      → Distinct key (map f xs)
  Distinct-map f [] keep h = tt
  Distinct-map f (x ∷ xs) keep h = (
    rw (keep x) (rw (any-map (λ y. key y == key x) f xs (λ y. rw (keep y))) h.0),
    Distinct-map f xs keep h.1,
  )

  pub Distinct-select : (s : A → Bool) (xs : List A) → Distinct key xs → Distinct key (select s xs)
  Distinct-select s [] h = tt
  Distinct-select s (x ∷ xs) h =
      ground (arith, Distinct-select s xs h.1, any-select (λ y. key y == key x) s xs h.0)

  pub Distinct-append_one :
      (xs : List A) (y : A)
      → any (λ x. key x == key y) xs ≡ false
      → Distinct key xs
      → Distinct key (xs ++ y ∷ [])
  Distinct-append_one [] y h d = (refl, tt)
  Distinct-append_one (x ∷ xs) y h d = (
    any-append_one (λ z. key z == key x) xs y d.0 (ground arith),
    Distinct-append_one xs y (ground arith) d.1,
  )

  -- In a list of distinct keys the first member with a key is the only one.
  pub first_unique :
      (i : ℕ) (xs : List A) (x : A)
      → Distinct key xs
      → first (λ y. key y == i) xs ≡ some x
      → All (λ y. key y ≡ i → y ≡ x) xs
  first_unique i [] x d h = tt
  first_unique i (z ∷ zs) x d h = elim (Bool-cases (key z == i)) [
    | inl hit ↦
        let same : z ≡ x = ground arith in
        let e : key z ≡ i = (==_iff _ _).0 hit in
        (
          λ _. same,
          All-unless (λ _. Unit {0}) (λ y. key y ≡ i → y ≡ x) (λ y. key y == key z) zs
              (λ y miss _ k. absurd (ground arith)) d.0 (All-trivial zs),
        )
    | inr miss ↦ (λ e. absurd (ground arith), first_unique i zs x d.1 (ground arith))
  ]

  pub first-none-All :
      (i : ℕ) (xs : List A) → first (λ y. key y == i) xs ≡ none → All (λ y. key y ≢ i) xs
  first-none-All i [] h = tt
  first-none-All i (z ∷ zs) h = elim (Bool-cases (key z == i)) [
    | inl hit ↦ absurd (ground arith)
    | inr miss ↦ (λ e. ground arith, first-none-All i zs (ground arith))
  ]

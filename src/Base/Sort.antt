-- ===== src/Base/Sort.antt =====
-- Insertion sort by a Boolean order, for ORDER BY, and what it promises.
use mathlib.Core.Path.{◌≡◌}
use mathlib.Core.Logic.{inl, inr}
use mathlib.Core.Bool.{Bool, true, false, not}
use mathlib.Core.List.{List, [], ◌∷◌, ◌++◌, Perm, perm_middle}
use mathlib.Core.List.Perm
use jobplane.Base.Tests.{if◌then◌else◌, Bool-cases}
use jobplane.Base.Lists.{select, All, All-select}

-- A list is what passes a test and what does not.
pub select_parts :
    {A : Type 0} (p : A → Bool) (xs : List A) → Perm (select p xs ++ select (λ x. not (p x)) xs) xs
select_parts p [] = Perm.refl _
select_parts p (x ∷ xs) = elim (Bool-cases (p x)) [
  | inl hit ↦ rw hit (Perm.cons x (select_parts p xs))
  | inr miss ↦ rw miss (Perm.trans (perm_middle (select p xs) _) (Perm.cons x (select_parts p xs)))
]

module _ {A : Type 0} (before : A → A → Bool) where
  unfoldable pub insert_by : A → List A → List A
  insert_by x [] = x ∷ []
  insert_by x (y ∷ ys) = let rest = insert_by x ys in if before x y then x ∷ y ∷ ys else y ∷ rest

  unfoldable pub order_by : List A → List A
  unfolding insert_by
  order_by [] = []
  order_by (x ∷ xs) = insert_by x (order_by xs)

  -- Each member goes before all that follow it.
  abbrev pub IsSorted : List A → Type 0
  IsSorted [] = Unit {0}
  IsSorted (x ∷ xs) = All (λ y. before x y ≡ true) xs × IsSorted xs

  All-insert_by : (P : A → Type 0) (x : A) (ys : List A) → P x → All P ys → All P (insert_by x ys)
  unfolding insert_by
  All-insert_by P x [] h k = (h, tt)
  All-insert_by P x (y ∷ ys) h k = elim (Bool-cases (before x y)) [
    | inl first ↦ rw first (h, k)
    | inr later ↦ rw later (k.0, All-insert_by P x ys h k.1)
  ]

  pub select-IsSorted : (p : A → Bool) (xs : List A) → IsSorted xs → IsSorted (select p xs)
  select-IsSorted p [] h = tt
  select-IsSorted p (x ∷ xs) h = elim (Bool-cases (p x)) [
    | inl hit ↦ rw hit (
      All-select (λ y. before x y ≡ true) (λ y. before x y ≡ true) p xs (λ y _ k. k) h.0,
      select-IsSorted p xs h.1,
    )
    | inr miss ↦ rw miss (select-IsSorted p xs h.1)
  ]

  pub order_by-All : (P : A → Type 0) (xs : List A) → All P xs → All P (order_by xs)
  unfolding order_by
  order_by-All P [] h = tt
  order_by-All P (x ∷ xs) h = All-insert_by P x (order_by xs) h.0 (order_by-All P xs h.1)

  pub order_by-perm : (xs : List A) → Perm (order_by xs) xs
  unfolding order_by
  order_by-perm [] = Perm.refl _
  order_by-perm (x ∷ xs) =
      Perm.trans (insert_by-perm x (order_by xs)) (Perm.cons x (order_by-perm xs))
    where
      insert_by-perm : (x : A) (ys : List A) → Perm (insert_by x ys) (x ∷ ys)
      insert_by-perm x [] = Perm.refl _
      insert_by-perm x (y ∷ ys) = elim (Bool-cases (before x y)) [
        | inl first ↦ rw first (Perm.refl _)
        | inr later ↦ rw later (Perm.trans (Perm.cons y (insert_by-perm x ys)) (Perm.swap x y ys))
      ]

  module _ (total : (x y : A) → before x y ≡ false → before y x ≡ true)
      (trans : (x y z : A) → before x y ≡ true → before y z ≡ true → before x z ≡ true) where
    All-trans :
        (x y : A) (zs : List A)
        → before x y ≡ true
        → All (λ z. before y z ≡ true) zs
        → All (λ z. before x z ≡ true) zs
    All-trans x y [] h k = tt
    All-trans x y (z ∷ zs) h k = (trans x y z h k.0, All-trans x y zs h k.1)

    insert_by-IsSorted : (x : A) (ys : List A) → IsSorted ys → IsSorted (insert_by x ys)
    unfolding insert_by
    insert_by-IsSorted x [] h = (tt, tt)
    insert_by-IsSorted x (y ∷ ys) h = elim (Bool-cases (before x y)) [
      | inl first ↦ rw first ((first, All-trans x y ys first h.0), h)
      | inr later ↦ rw later (
        All-insert_by (λ z. before y z ≡ true) x ys (total x y later) h.0,
        insert_by-IsSorted x ys h.1,
      )
    ]

    pub order_by-IsSorted : (xs : List A) → IsSorted (order_by xs)
    unfolding order_by
    order_by-IsSorted [] = tt
    order_by-IsSorted (x ∷ xs) = insert_by-IsSorted x (order_by xs) (order_by-IsSorted xs)

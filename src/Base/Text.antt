-- ===== src/Base/Text.antt =====
-- strings.Split, for a separator of one character.
use Prim.Native.Char.{Char, code}
use Prim.Native.String.{String, ◌++◌}
use mathlib.Core.Path.{◌≡◌, refl, sym, ap, ◌∙◌, subst}
use mathlib.Core.Logic.{◌⊎◌, inl, inr}
use mathlib.Core.Bool.{Bool, true, false}
use mathlib.Core.List.{List, [], ◌∷◌, ◌++◌ as append}
use text.Mathlib.Text.{◌==◌ as str_eq}
use text.Mathlib.TextEquality.{Char-path, eq_iff}
use text.Mathlib.TextLemmas.{nil-append, cons-append, cons-ne-nil}
use jobplane.Base.Tests.{◌==◌, if◌then◌else◌, Bool-cases, ==_iff, ==_refl}

abbrev pub is_char : Char → Char → Bool
is_char c d = code c == code d

-- Puts a character before the first part.
abbrev pub before_first : Char → List String → List String
before_first c [] = String.◌∷◌ c String.[] ∷ []
before_first c (p ∷ ps) = String.◌∷◌ c p ∷ ps

unfoldable pub split : Char → String → List String
split sep String.[] = String.[] ∷ []
split sep (String.◌∷◌ c s) =
    let rest = split sep s in if is_char c sep then String.[] ∷ rest else before_first c rest

-- The character does not occur.
unfoldable pub Lacks : Char → String → Type 0
Lacks sep String.[] = Unit {0}
Lacks sep (String.◌∷◌ c s) = (is_char c sep ≡ false) × Lacks sep s

pub List-cases : {A : Type 0} (xs : List A) → (xs ≡ []) ⊎ ((y : A) × (ys : List A) × (xs ≡ y ∷ ys))
List-cases [] = inl refl
List-cases (x ∷ xs) = inr (x, xs, refl)

pub split-ne-nil : (sep : Char) (s : String) → split sep s ≡ [] → ⊥
unfolding split
split-ne-nil sep String.[] h = cc
split-ne-nil sep (String.◌∷◌ c s) h = elim (Bool-cases (is_char c sep)) [
  | inl hit ↦ let e = rw hit at h in cc
  | inr miss ↦ elim (List-cases (split sep s)) [
    | inl empty ↦ split-ne-nil sep s empty
    | inr (p, ps, e) ↦ let e' = rw (miss, e) at h in cc
  ]
]

pub is_char_refl : (c : Char) → is_char c c ≡ true
is_char_refl c = ==_refl _

-- Splitting undoes a separator.
pub split-append :
    (sep : Char) (a b : String)
    → split sep (a ++ String.◌∷◌ sep b) ≡ append (split sep a) (split sep b)
unfolding split
split-append sep String.[] b = rw (nil-append, is_char_refl) refl
split-append sep (String.◌∷◌ c a) b =
    let ih = split-append sep a b in
    elim (Bool-cases (is_char c sep)) [
      | inl hit ↦ rw (cons-append, hit, ih) refl
      | inr miss ↦ elim (List-cases (split sep a)) [
        | inl empty ↦ absurd (split-ne-nil sep a empty)
        | inr (p, ps, e) ↦ rw (cons-append, miss, ih, e) refl
      ]
    ]

pub split-Lacks : (sep : Char) (p : String) → Lacks sep p → split sep p ≡ p ∷ []
unfolding split Lacks
split-Lacks sep String.[] h = refl
split-Lacks sep (String.◌∷◌ c p) h = rw (h.0, split-Lacks sep p h.1) refl

split_one : (sep : Char) (s b : String) → split sep s ≡ b ∷ [] → (s ≡ b) × Lacks sep b
unfolding split Lacks
split_one sep String.[] b h = let e : String.[] ≡ b = cc in (e, subst (Lacks sep) e tt)
split_one sep (String.◌∷◌ c s) b h = elim (Bool-cases (is_char c sep)) [
  | inl hit ↦ let e = rw hit at h in absurd (split-ne-nil sep s (cc))
  | inr miss ↦ elim (List-cases (split sep s)) [
    | inl empty ↦ absurd (split-ne-nil sep s empty)
    | inr (p, ps, e) ↦
        let cut = rw (miss, e) at h in
        let last : ps ≡ [] = cc in
        let named : String.◌∷◌ c p ≡ b = cc in
        let ih = split_one sep s p (e ∙ rw last) in
        (ap (String.◌∷◌ c) ih.0 ∙ named, subst (Lacks sep) named (miss, ih.1))
  ]
]

-- A text that splits into two parts is the parts with one separator between.
split_two :
    (sep : Char) (s a b : String)
    → split sep s ≡ a ∷ b ∷ []
    → (d : Char) × (is_char d sep ≡ true) × (s ≡ a ++ String.◌∷◌ d b) × Lacks sep a × Lacks sep b
unfolding split Lacks
split_two sep String.[] a b h = absurd (cc)
split_two sep (String.◌∷◌ c s) a b h = elim (Bool-cases (is_char c sep)) [
  | inl hit ↦
      let cut = rw hit at h in
      let ended : split sep s ≡ b ∷ [] = cc in
      let nothing : String.[] ≡ a = cc in
      let ih = split_one sep s b ended in
      (
        c,
        hit,
        subst (λ x. String.◌∷◌ c s ≡ x ++ String.◌∷◌ c b) nothing
            (ap (String.◌∷◌ c) ih.0 ∙ sym (nil-append _)),
        subst (Lacks sep) nothing tt,
        ih.1,
      )
  | inr miss ↦ elim (List-cases (split sep s)) [
    | inl empty ↦ absurd (split-ne-nil sep s empty)
    | inr (p, ps, e) ↦
        let cut = rw (miss, e) at h in
        let rest : ps ≡ b ∷ [] = cc in
        let named : String.◌∷◌ c p ≡ a = cc in
        let ih = split_two sep s p b (e ∙ rw rest) in
        (
          ih.0,
          ih.1,
          subst (λ x. String.◌∷◌ c s ≡ x ++ String.◌∷◌ ih.0 b) named
              (ap (String.◌∷◌ c) ih.2 ∙ sym (cons-append c p _)),
          subst (Lacks sep) named (miss, ih.3),
          ih.4,
        )
  ]
]

-- The same with the separator named.
pub split-two_parts :
    (sep : Char) (s a b : String)
    → split sep s ≡ a ∷ b ∷ []
    → (s ≡ a ++ String.◌∷◌ sep b) × Lacks sep a × Lacks sep b
split-two_parts sep s a b h =
    let parts = split_two sep s a b h in
    let same : parts.0 ≡ sep = Char-path _ _ ((==_iff _ _).0 parts.1) in
    (subst (λ d. s ≡ a ++ String.◌∷◌ d b) same parts.2, parts.3, parts.4)

pub cons-ne-empty : (c : Char) (s : String) → str_eq (String.◌∷◌ c s) "" ≡ false
cons-ne-empty c s = elim (Bool-cases (str_eq (String.◌∷◌ c s) "")) [
  | inl bare ↦ absurd (cons-ne-nil c s ((eq_iff _ _).0 bare))
  | inr filled ↦ filled
]

pub str_eq_refl : (s : String) → str_eq s s ≡ true
str_eq_refl s = (eq_iff s s).1 refl

-- ===== src/Base/FilePath/Cleaned.antt =====
-- A rooted path that is clean has no component "..", and what lies under a prefix has none either.
use Prim.Native.Char.{Char}
use Prim.Native.String.{String, ◌++◌}
use mathlib.Core.Path.{◌≡◌, refl, sym, ap, ◌∙◌, subst}
use mathlib.Core.Logic.{inl, inr}
use mathlib.Core.Bool.{true, false}
use mathlib.Core.List.{List, [], ◌∷◌, ◌++◌ as append}
use text.Mathlib.Text.{◌==◌ as str_eq}
use text.Mathlib.TextEquality.{Char-path}
use text.Mathlib.TextLemmas.{nil-append, cons-append, append_assoc}
use jobplane.Base.Tests.{Bool-cases, ==_iff}
use jobplane.Base.Lists.{All}
use jobplane.Base.Text.{is_char, split, Lacks, List-cases, split-ne-nil, split-append, split-Lacks}
use jobplane.Base.FilePath.{
  slash, has_prefix, go_up, add_part, clean_parts, join_onto, join_parts, clean, join,
}

-- A component that is not "..".
abbrev pub IsNotUp : String → Type 0
IsNotUp part = str_eq part ".." ≡ false

has_prefix-rest : (s t : String) → has_prefix s t ≡ true → (rest : String) × (s ≡ t ++ rest)
unfolding has_prefix
has_prefix-rest s String.[] h = (s, sym (nil-append s))
has_prefix-rest String.[] (String.◌∷◌ d t) h = absurd (cc)
has_prefix-rest (String.◌∷◌ c s) (String.◌∷◌ d t) h = elim (Bool-cases (is_char c d)) [
  | inl hit ↦
      let ih = has_prefix-rest s t (rw hit at h) in
      let same : c ≡ d = Char-path _ _ ((==_iff _ _).0 hit) in
      (ih.0, rw same (ap (String.◌∷◌ d) ih.1 ∙ sym (cons-append d t ih.0)))
  | inr miss ↦ let e = rw miss at h in absurd (cc)
]

split-All-Lacks : (sep : Char) (s : String) → All (Lacks sep) (split sep s)
unfolding split Lacks
split-All-Lacks sep String.[] = (tt, tt)
split-All-Lacks sep (String.◌∷◌ c s) =
    let ih = split-All-Lacks sep s in
    elim (Bool-cases (is_char c sep)) [
      | inl hit ↦ rw hit (tt, ih)
      | inr miss ↦ elim (List-cases (split sep s)) [
        | inl empty ↦ absurd (split-ne-nil sep s empty)
        | inr (p, ps, e) ↦
            let parts : All (Lacks sep) (p ∷ ps) = subst (All (Lacks sep)) e ih in
            rw (miss, e) ((miss, parts.0), parts.1)
      ]
    ]

-- What holds of a component that Clean keeps.
abbrev IsKept : String → Type 0
IsKept part = IsNotUp part × Lacks slash part

go_up-IsKept : (stack : List String) → All IsKept stack → All IsKept (go_up true stack)
unfolding go_up
go_up-IsKept [] h = tt
go_up-IsKept (p ∷ ps) h = rw h.0.0 h.1

add_part-IsKept :
    (part : String) (stack : List String)
    → Lacks slash part
    → All IsKept stack
    → All IsKept (add_part true part stack)
unfolding add_part
add_part-IsKept part stack l h = elim (Bool-cases (str_eq part "")) [
  | inl empty ↦ rw empty h
  | inr some_text ↦ elim (Bool-cases (str_eq part ".")) [
    | inl dot ↦ rw (some_text, dot) h
    | inr named ↦ elim (Bool-cases (str_eq part "..")) [
      | inl up ↦ rw (some_text, named, up) (go_up-IsKept stack h)
      | inr kept ↦ rw (some_text, named, kept) ((kept, l), h)
    ]
  ]
]

clean_parts-IsKept :
    (parts stack : List String)
    → All (Lacks slash) parts
    → All IsKept stack
    → All IsKept (clean_parts true parts stack)
unfolding clean_parts
clean_parts-IsKept [] stack l h = h
clean_parts-IsKept (p ∷ ps) stack l h =
    clean_parts-IsKept ps (add_part true p stack) l.1 (add_part-IsKept p stack l.0 h)

split-join_onto :
    (parts : List String) (tail : String)
    → All IsKept parts
    → All IsNotUp (split slash tail)
    → All IsNotUp (split slash (join_onto parts tail))
unfolding join_onto
split-join_onto [] tail h t = t
split-join_onto (p ∷ ps) tail h t =
    split-join_onto ps (p ++ String.◌∷◌ slash tail) h.1
      (rw (split-append slash p tail, split-Lacks slash p h.0.1) (h.0.0, t))

split-join_parts :
    (parts : List String) → All IsKept parts → All IsNotUp (split slash (join_parts parts))
unfolding join_parts split
split-join_parts [] h = (refl, tt)
split-join_parts (p ∷ ps) h = split-join_onto ps p h.1 (rw (split-Lacks slash p h.0.1) (h.0.0, tt))

pub clean-IsNotUp : (s : String) → has_prefix s "/" ≡ true → All IsNotUp (split slash (clean s))
unfolding clean split
clean-IsNotUp s h = rw h (
  refl,
  split-join_parts (clean_parts true (split slash s) [])
      (clean_parts-IsKept (split slash s) [] (split-All-Lacks slash s) tt),
)

All-append-right : {A : Type 0} (P : A → Type 0) (xs ys : List A) → All P (append xs ys) → All P ys
All-append-right P [] ys h = h
All-append-right P (x ∷ xs) ys h = All-append-right P xs ys h.1

-- `path` is the directory's path, a slash, and components none of which is "..".
abbrev pub IsInside : String → String → Type 0
IsInside dir path =
    (rest : String) × (path ≡ clean dir ++ String.◌∷◌ slash rest) × All IsNotUp (split slash rest)

join-IsNotUp :
    (dir name : String) → has_prefix dir "/" ≡ true → All IsNotUp (split slash (join dir name))
unfolding join has_prefix
join-IsNotUp String.[] name h = absurd (cc)
join-IsNotUp (String.◌∷◌ c dir) String.[] h = clean-IsNotUp (String.◌∷◌ c dir) h
join-IsNotUp (String.◌∷◌ c dir) (String.◌∷◌ d name) h =
    clean-IsNotUp (String.◌∷◌ c (dir ++ String.◌∷◌ slash (String.◌∷◌ d name))) h

-- The test of untar lets only paths inside the directory pass.
pub join-IsInside :
    (dir name : String)
    → has_prefix dir "/" ≡ true
    → has_prefix (join dir name) (clean dir ++ "/") ≡ true
    → IsInside dir (join dir name)
join-IsInside dir name rooted h =
    let (rest, e) = has_prefix-rest (join dir name) (clean dir ++ "/") h in
    let e' : join dir name ≡ clean dir ++ String.◌∷◌ slash rest =
      e
      ∙ append_assoc (clean dir) "/" rest
      ∙ ap (λ t. clean dir ++ t)
          (cons-append slash "" rest ∙ ap (String.◌∷◌ slash) (nil-append rest)) in
    let parts : All IsNotUp (append (split slash (clean dir)) (split slash rest)) =
      subst (All IsNotUp) (ap (split slash) e' ∙ split-append slash (clean dir) rest)
        (join-IsNotUp dir name rooted) in
    (rest, e', All-append-right IsNotUp (split slash (clean dir)) (split slash rest) parts)

-- ===== src/Base/FilePath.antt =====
-- Go's filepath.Clean and filepath.Join, and strings.HasPrefix, on texts whose separator is a slash.
pub mod Cleaned
use Prim.Native.Char.{Char}
use Prim.Native.String.{String, ◌++◌}
use mathlib.Core.Bool.{Bool, true, false}
use mathlib.Core.List.{List, [], ◌∷◌}
use text.Mathlib.Text.{◌==◌ as str_eq}
use jobplane.Base.Tests.{if◌then◌else◌}
use jobplane.Base.Text.{is_char, split}

abbrev pub slash : Char
slash = "/"

unfoldable pub has_prefix : String → String → Bool
has_prefix s String.[] = true
has_prefix String.[] (String.◌∷◌ d t) = false
has_prefix (String.◌∷◌ c s) (String.◌∷◌ d t) = if is_char c d then has_prefix s t else false

-- A ".." after the components so far, the last of them first.
unfoldable pub go_up : Bool → List String → List String
go_up rooted [] = if rooted then [] else ".." ∷ []
go_up rooted (p ∷ ps) = if str_eq p ".." then ".." ∷ p ∷ ps else ps

unfoldable pub add_part : Bool → String → List String → List String
unfolding go_up
add_part rooted part stack =
    if str_eq part ""
    then stack
    else if str_eq part "."
    then stack
    else if str_eq part ".."
    then go_up rooted stack
    else part ∷ stack

unfoldable pub clean_parts : Bool → List String → List String → List String
unfolding add_part
clean_parts rooted [] stack = stack
clean_parts rooted (p ∷ ps) stack = clean_parts rooted ps (add_part rooted p stack)

-- strings.Join, of components the last of which comes first, before the text `tail`.
unfoldable pub join_onto : List String → String → String
join_onto [] tail = tail
join_onto (p ∷ ps) tail = join_onto ps (p ++ String.◌∷◌ slash tail)

unfoldable pub join_parts : List String → String
unfolding join_onto
join_parts [] = ""
join_parts (p ∷ ps) = join_onto ps p

abbrev pub or_dot : String → String
or_dot String.[] = "."
or_dot (String.◌∷◌ c s) = String.◌∷◌ c s

-- filepath.Clean
unfoldable pub clean : String → String
unfolding clean_parts has_prefix join_parts
clean s =
    if has_prefix s "/"
    then String.◌∷◌ slash (join_parts (clean_parts true (split slash s) []))
    else or_dot (join_parts (clean_parts false (split slash s) []))

-- filepath.Join of two elements; an empty one is left out.
unfoldable pub join : String → String → String
unfolding clean
join String.[] String.[] = ""
join String.[] name = clean name
join (String.◌∷◌ c dir) String.[] = clean (String.◌∷◌ c dir)
join (String.◌∷◌ c dir) name = clean (String.◌∷◌ c (dir ++ String.◌∷◌ slash name))

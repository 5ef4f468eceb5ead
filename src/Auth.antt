-- ===== src/Auth.antt =====
-- internal/auth/keys.go: the hash of an API key, and strings.TrimSpace that it uses.
use Prim.Native.Char.{Char, code}
use Prim.Native.String.{[] as no_text, ◌∷◌ as before}
use jobplane.Base.{ℕ, String, Bool, ◌||◌, ◌&&◌, ◌==◌, leb, if◌then◌else◌}

-- unicode.IsSpace
abbrev is_space_code : ℕ → Bool
is_space_code n =
    (leb 9 n && leb n 13)
    || (n == 32)
    || (n == 133)
    || (n == 160)
    || (n == 5760)
    || (leb 8192 n && leb n 8202)
    || (n == 8232)
    || (n == 8233)
    || (n == 8239)
    || (n == 8287)
    || (n == 12288)

unfoldable trim_left : String → String
trim_left no_text = no_text
trim_left (before c s) =
    let rest = trim_left s in if is_space_code (code c) then rest else before c s

-- A character goes if it is a space and nothing is left behind it.
abbrev keep_before : Char → String → String
keep_before c no_text = if is_space_code (code c) then no_text else before c no_text
keep_before c (before d s) = before c (before d s)

unfoldable trim_right : String → String
trim_right no_text = no_text
trim_right (before c s) = keep_before c (trim_right s)

-- strings.TrimSpace
unfoldable pub trim_space : String → String
unfolding trim_left trim_right
trim_space s = trim_right (trim_left s)

-- HashKey, with the hexadecimal SHA-256 digest as an argument.
unfoldable pub hash_with : (String → String) → String → String
unfolding trim_space
hash_with sha256_hex key = sha256_hex (trim_space key)

-- ===== src/Worker/Runtime/Disk/Removal.antt =====
-- Removing a directory undoes what was added to it and below it.
use text.Mathlib.Text.{◌==◌ as str_eq}
use jobplane.Base.Text.{str_eq_refl}
use jobplane.Base.{
  ◌≡◌, refl, ◌∙◌, String, Bool, true, false, List, [], ◌∷◌, ◌++◌ as append, select, All,
}
use Prim.Native.String.{◌++◌}
use text.Mathlib.TextLemmas.{nil-append, cons-append, append_assoc}
use jobplane.Base.{sym, ap, ==_refl, All-mono, Bool, ◌||◌, not}
use jobplane.Base.FilePath.{slash, has_prefix, clean}
use jobplane.Base.FilePath.Cleaned.{IsInside}
use jobplane.Worker.Runtime.Untar.Inside.{AddsInside}
use jobplane.Store.Models.{Json}
use jobplane.Worker.Runtime.Disk.{Disk, make_dir, write_file, write_files, is_under, remove_all}

or-true : (b : Bool) → (b || true) ≡ true
or-true true = refl
or-true false = refl

pub is_under_refl : (dir : String) → is_under dir dir ≡ true
unfolding is_under
is_under_refl dir = rw (str_eq_refl dir) refl

-- Members that fail a test leave nothing behind.
pub select-append-none :
    {A : Type 0} (p : A → Bool) (xs ys : List A)
    → All (λ x. p x ≡ false) xs
    → select p (append xs ys) ≡ select p ys
select-append-none p [] ys h = refl
select-append-none p (x ∷ xs) ys h = rw h.0 (select-append-none p xs ys h.1)

-- Removing what one has added oneself.
pub remove_all-make_dir :
    (dir : String) (disk : Disk) → remove_all dir (make_dir dir disk) ≡ remove_all dir disk
unfolding remove_all
remove_all-make_dir dir disk = rw (is_under_refl dir) refl

pub remove_all-write_files :
    (dir : String) (files : List (String × Json)) (disk : Disk)
    → All (λ file. is_under dir (file.0) ≡ true) files
    → remove_all dir (write_files files disk) ≡ remove_all dir disk
unfolding remove_all
remove_all-write_files dir [] disk h = refl
remove_all-write_files dir (file ∷ files) disk h =
    remove_all-write_files dir files (write_file (file.0) (file.1) disk) h.1 ∙ rw h.0 refl

has_prefix-append : (a b : String) → has_prefix (a ++ b) a ≡ true
unfolding has_prefix
has_prefix-append String.[] b = refl
has_prefix-append (String.◌∷◌ c a) b = rw (cons-append, ==_refl, has_prefix-append a b) refl

-- A path inside a directory whose own path is clean.
pub IsInside-is_under :
    (dir path : String) → clean dir ≡ dir → IsInside dir path → is_under dir path ≡ true
unfolding is_under
IsInside-is_under dir path tidy (rest, e, parts) =
    let e' : path ≡ (dir ++ "/") ++ rest =
      e
      ∙ ap (λ d. d ++ String.◌∷◌ slash rest) tidy
      ∙ ap (λ t. dir ++ t)
          (sym (cons-append slash "" rest ∙ ap (String.◌∷◌ slash) (nil-append rest)))
      ∙ sym (append_assoc dir "/" rest) in
    rw (e', has_prefix-append (dir ++ "/") rest) (or-true (str_eq ((dir ++ "/") ++ rest) dir))

-- What is added inside a directory is gone with it.
pub remove_all-AddsInside :
    (dir : String) (before after : Disk)
    → clean dir ≡ dir
    → AddsInside dir before after
    → remove_all dir after ≡ remove_all dir before
unfolding remove_all
remove_all-AddsInside dir before after tidy (dirs, files, de, fe, dp, fp) =
    let gone : All (λ path. not (is_under dir path) ≡ false) dirs =
      All-mono (IsInside dir) (λ path. not (is_under dir path) ≡ false) dirs
        (λ path h. rw (IsInside-is_under dir path tidy h) refl) dp in
    let gone' : All (λ file. not (is_under dir (file.0)) ≡ false) files =
      All-mono (λ file. IsInside dir (file.0)) (λ file. not (is_under dir (file.0)) ≡ false) files
        (λ file h. rw (IsInside-is_under dir (file.0) tidy h) refl) fp in
    rw
      (
        de,
        fe,
        select-append-none (λ path. not (is_under dir path)) dirs before.dirs gone,
        select-append-none (λ file. not (is_under dir (file.0))) files before.files gone',
      )
      refl

-- ===== src/Worker/Runtime/Disk.antt =====
-- The directories and files of a worker's machine, as os.MkdirAll, os.Create, os.RemoveAll and
-- os.ReadFile treat them, and the result file of getResultFromFile.
pub mod Removal
use Prim.Native.String.{◌++◌}
use text.Mathlib.Text.{◌==◌ as str_eq}
use jobplane.Base.{
  ◌≡◌, refl, ap, String, Bool, true, false, not, ◌||◌, Option, none, some, List, [], ◌∷◌, any,
  select, first, if◌then◌else◌, arith,
}
use jobplane.Base.FilePath.{has_prefix, join}
use jobplane.Store.Models.{Json}
use jobplane.Worker.Report.{ResultFile, no_directory, unreadable, content}

pub record Disk : Type 0 where
  pub dirs : List String
  pub files : List (String × Json)

-- os.MkdirAll; directories above the new one are not listed.
abbrev pub make_dir : String → Disk → Disk
make_dir path disk = record disk { dirs = path ∷ disk.dirs }

abbrev pub write_file : String → Json → Disk → Disk
write_file path text disk = record disk { files = (path, text) ∷ disk.files }

abbrev pub write_files : List (String × Json) → Disk → Disk
write_files [] disk = disk
write_files (file ∷ files) disk = write_files files (write_file (file.0) (file.1) disk)

-- The directory itself, or a path below it.
unfoldable pub is_under : String → String → Bool
is_under dir path = str_eq path dir || has_prefix path (dir ++ "/")

-- os.RemoveAll, where it succeeds
unfoldable pub remove_all : String → Disk → Disk
unfolding is_under
remove_all dir disk = record {
  dirs = select (λ path. not (is_under dir path)) disk.dirs;
  files = select (λ file. not (is_under dir (file.0))) disk.files;
}

-- How os.RemoveAll ends: it has removed all, or it returns an error and paths are left.
pub data RemoveAll : Type 0 where
  removed : RemoveAll
  left_over : String → List String → RemoveAll

abbrev pub removal_error : RemoveAll → Option String
removal_error removed = none
removal_error (left_over text paths) = some text

-- What is below the directory goes, but for what is left.
unfoldable pub remove_but : List String → String → Disk → Disk
unfolding is_under
remove_but paths dir disk = record {
  dirs = select (λ path. any (str_eq path) paths || not (is_under dir path)) disk.dirs;
  files = select (λ file. any (str_eq (file.0)) paths || not (is_under dir (file.0))) disk.files;
}

abbrev pub remove_with : RemoveAll → String → Disk → Disk
remove_with removed dir disk = remove_all dir disk
remove_with (left_over text paths) dir disk = remove_but paths dir disk

abbrev pub content_of : Option (String × Json) → ResultFile
content_of none = unreadable
content_of (some file) = content file.1

-- What os.ReadFile finds at result.json in a handle's result directory.
unfoldable pub read_result : String → Disk → ResultFile
read_result dir disk =
    if str_eq dir ""
    then no_directory
    else content_of (first (λ file. str_eq (file.0) (join dir "result.json")) disk.files)

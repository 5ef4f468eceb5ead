-- ===== src/Worker/Runtime/Untar.antt =====
-- internal/worker/runtime/docker.go, untar: the results of a container, written below a directory.
-- archive/tar is the list of headers with their content, and how the archive ends.
pub mod Inside
use Prim.Native.String.{◌++◌}
use text.Mathlib.Text.{◌==◌ as str_eq}
use jobplane.Base.{String, Bool, ◌||◌, Option, none, some, List, [], ◌∷◌, if◌then◌else◌}
use jobplane.Base.FilePath.{has_prefix, clean, join}
use jobplane.Store.Models.{Json}
use jobplane.Worker.Runtime.Disk.{Disk, make_dir, write_file}

pub data TypeFlag : Type 0 where
  type_dir type_reg type_other : TypeFlag

-- How the file system treats an entry: well, or with an error from os.MkdirAll, from os.Create, or
-- from io.Copy after a part of the content.
pub data Io : Type 0 where
  goes_well : Io
  mkdir_fails create_fails : String → Io
  copy_fails : Json → String → Io

pub record Entry : Type 0 where
  pub name : String
  pub type_flag : TypeFlag
  pub body : Json
  pub io : Io

abbrev pub is_root : String → Bool
is_root name = str_eq name "./" || str_eq name "."

abbrev pub extract_dir : String → Io → Disk → Option String × Disk
extract_dir target (mkdir_fails text) disk = (some text, disk)
extract_dir target io disk = (none, make_dir target disk)

-- The directory that holds the file is made first; it is not listed.
abbrev pub extract_file : String → Json → Io → Disk → Option String × Disk
extract_file target body goes_well disk = (none, write_file target body disk)
extract_file target body (mkdir_fails text) disk = (some text, disk)
extract_file target body (create_fails text) disk = (some text, disk)
extract_file target body (copy_fails part text) disk = (some text, write_file target part disk)

abbrev pub extract : String → TypeFlag → Json → Io → Disk → Option String × Disk
extract target type_dir body io disk = extract_dir target io disk
extract target type_reg body io disk = extract_file target body io disk
extract target type_other body io disk = (none, disk)

-- One round of the loop.
unfoldable pub untar_entry : String → Entry → Disk → Option String × Disk
untar_entry dest entry disk =
    if is_root entry.name
    then (none, disk)
    else if has_prefix (join dest entry.name) (clean dest ++ "/")
    then extract (join dest entry.name) entry.type_flag entry.body entry.io disk
    else (some ("illegal file path: " ++ entry.name), disk)

abbrev pub or_go_on : (Disk → Option String × Disk) → Option String × Disk → Option String × Disk
or_go_on rest (some text, disk) = (some text, disk)
or_go_on rest (none, disk) = rest disk

-- `ending` is the error of tr.Next after the entries, none for io.EOF.
unfoldable pub untar : String → List Entry → Option String → Disk → Option String × Disk
unfolding untar_entry
untar dest [] ending disk = (ending, disk)
untar dest (entry ∷ entries) ending disk =
    or_go_on (untar dest entries ending) (untar_entry dest entry disk)

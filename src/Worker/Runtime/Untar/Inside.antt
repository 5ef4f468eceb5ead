-- ===== src/Worker/Runtime/Untar/Inside.antt =====
-- An archive writes only below the directory it is unpacked into.
use Prim.Native.String.{◌++◌}
use jobplane.Base.{
  ◌≡◌, refl, inl, inr, String, true, Option, none, some, List, [], ◌∷◌, ◌++◌ as append, Bool-cases,
  All, All-append,
}
use mathlib.Core.List.{append_assoc}
use jobplane.Base.FilePath.{has_prefix, clean, join}
use jobplane.Base.FilePath.Cleaned.{IsInside, join-IsInside}
use jobplane.Store.Models.{Json}
use jobplane.Worker.Runtime.Disk.{Disk}
use jobplane.Worker.Runtime.Untar.{
  TypeFlag, type_dir, type_reg, type_other, Io, goes_well, mkdir_fails, create_fails, copy_fails,
  Entry, is_root, extract_dir, extract_file, extract, untar_entry, untar, or_go_on,
}

-- The disk `after` has what `before` has, under directories and files that lie inside `dest`.
abbrev pub AddsInside : String → Disk → Disk → Type 0
AddsInside dest before after =
    (dirs : List String) × (files : List (String × Json)) × (after.dirs ≡ append dirs before.dirs)
    × (after.files ≡ append files before.files)
    × All (IsInside dest) dirs
    × All (λ file. IsInside dest (file.0)) files

module _ (dest : String) (rooted : has_prefix dest "/" ≡ true) where
  AddsInside-refl : (disk : Disk) → AddsInside dest disk disk
  AddsInside-refl disk = ([], [], refl, refl, tt, tt)

  AddsInside-trans :
      (a b c : Disk) → AddsInside dest a b → AddsInside dest b c → AddsInside dest a c
  AddsInside-trans a b c (ds, fs, de, fe, dp, fp) (ds', fs', de', fe', dp', fp') = (
    append ds' ds,
    append fs' fs,
    rw (de', de, append_assoc) refl,
    rw (fe', fe, append_assoc) refl,
    All-append (IsInside dest) ds' ds dp' dp,
    All-append (λ file. IsInside dest (file.0)) fs' fs fp' fp,
  )

  module _ (target : String) (disk : Disk) (inside : IsInside dest target) where
    extract_dir-AddsInside : (io : Io) → AddsInside dest disk (extract_dir target io disk).1
    extract_dir-AddsInside (mkdir_fails text) = AddsInside-refl disk
    extract_dir-AddsInside goes_well = (target ∷ [], [], refl, refl, (inside, tt), tt)
    extract_dir-AddsInside (create_fails text) = (target ∷ [], [], refl, refl, (inside, tt), tt)
    extract_dir-AddsInside (copy_fails part text) = (target ∷ [], [], refl, refl, (inside, tt), tt)

    extract_file-AddsInside :
        (body : Json) (io : Io) → AddsInside dest disk (extract_file target body io disk).1
    extract_file-AddsInside body goes_well = ([], (target, body) ∷ [], refl, refl, tt, (inside, tt))
    extract_file-AddsInside body (mkdir_fails text) = AddsInside-refl disk
    extract_file-AddsInside body (create_fails text) = AddsInside-refl disk
    extract_file-AddsInside body (copy_fails part text) =
        ([], (target, part) ∷ [], refl, refl, tt, (inside, tt))

    extract-AddsInside :
        (flag : TypeFlag) (body : Json) (io : Io)
        → AddsInside dest disk (extract target flag body io disk).1
    extract-AddsInside type_dir body io = extract_dir-AddsInside io
    extract-AddsInside type_reg body io = extract_file-AddsInside body io
    extract-AddsInside type_other body io = AddsInside-refl disk

  untar_entry-AddsInside :
      (entry : Entry) (disk : Disk) → AddsInside dest disk (untar_entry dest entry disk).1
  unfolding untar_entry
  untar_entry-AddsInside entry disk = elim (Bool-cases (is_root entry.name)) [
    | inl root ↦ rw root (AddsInside-refl disk)
    | inr named ↦ elim (Bool-cases (has_prefix (join dest entry.name) (clean dest ++ "/"))) [
      | inl legal ↦
          rw (named, legal)
            (extract-AddsInside (join dest entry.name) disk
              (join-IsInside dest entry.name rooted legal) entry.type_flag entry.body entry.io)
      | inr illegal ↦ rw (named, illegal) (AddsInside-refl disk)
    ]
  ]

  or_go_on-AddsInside :
      (rest : Disk → Option String × Disk)
      → ((disk : Disk) → AddsInside dest disk (rest disk).1)
      → (before : Disk) (step : Option String × Disk) → AddsInside dest before step.1
      → AddsInside dest before (or_go_on rest step).1
  or_go_on-AddsInside rest keeps before (some text, disk) h = h
  or_go_on-AddsInside rest keeps before (none, disk) h =
      AddsInside-trans before disk (rest disk).1 h (keeps disk)

  -- Where the directory's path is absolute, untar only adds to the disk, and all that it adds lies
  -- inside the directory: the path is the directory's own, a slash, and components none of which is
  -- "..". This holds of every archive, also where an entry or a write fails on the way.
  pub untar-AddsInside :
      (entries : List Entry) (ending : Option String) (disk : Disk)
      → AddsInside dest disk (untar dest entries ending disk).1
  unfolding untar
  untar-AddsInside [] ending disk = AddsInside-refl disk
  untar-AddsInside (entry ∷ entries) ending disk =
      or_go_on-AddsInside (untar dest entries ending) (untar-AddsInside entries ending) disk
        (untar_entry dest entry disk) (untar_entry-AddsInside entry disk)

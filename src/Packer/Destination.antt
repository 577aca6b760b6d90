-- ===== src/Packer/Destination.antt =====
-- Where a runner is written: `_resolve_format`, `_guard_destination` and the first part of
-- `pack_script`, up to the guard, of src/pwshpy/adapters/native/packer.py.
pub mod Kept
use pwshpy.Base.{
  ℕ, Bool, true, false, not, ◌&&◌, ◌||◌, List, [], ◌∷◌, Option, none, some, any, if◌then◌else◌,
  Result, ok, err, ◌>>=◌, ◌>>◌,
}
use pwshpy.Text.{Text, codes, lower, text_eq}
use pwshpy.Enums.RunnerFormat.{RunnerFormat, auto, ps1, sh}
use pwshpy.Packing.Imports.{Node}
use pwshpy.Packer.Disk.{Disk, PackError, destination_is_packed, already_exists, existing_file}
use pwshpy.Packer.Collect.{Found, paths, collect_sources}

-- The parts of `pathlib` that name the destination.
pub record Naming (FilePath : Type 0) : Type 0 where
  pub parent : FilePath → FilePath
  pub suffix : FilePath → Text
  pub with_suffix : FilePath → Text → FilePath

-- `PackOptions`
pub record Options (FilePath : Type 0) : Type 0 where
  pub include : List FilePath
  pub with_packages : List Text
  pub root : Option FilePath
  pub force : Bool
  pub format : RunnerFormat

module _ {FilePath Body : Type 0} (disk : Disk FilePath Body) (naming : Naming FilePath) where
  abbrev pub by_suffix : Option FilePath → RunnerFormat
  by_suffix none = ps1
  by_suffix (some dest) = if text_eq (lower (naming.suffix dest)) (codes ".sh") then sh else ps1

  unfoldable pub resolve_format : RunnerFormat → Option FilePath → RunnerFormat
  resolve_format ps1 dest = ps1
  resolve_format sh dest = sh
  resolve_format auto dest = by_suffix dest

  -- `destination.resolve() in {path.resolve() for path in sources}`
  abbrev pub is_source : FilePath → List FilePath → Bool
  is_source destination sources =
      any (λ path. disk.same (disk.resolve destination) (disk.resolve path)) sources

  unfoldable pub guard_destination :
      FilePath → List FilePath → Bool → Result (PackError FilePath) (Unit {0})
  guard_destination destination sources force =
      if is_source destination sources
      then err (destination_is_packed destination)
      else if disk.exists destination && not force
      then err (already_exists destination)
      else ok tt

  abbrev pub default_suffix : RunnerFormat → Text
  default_suffix sh = codes ".sh"
  default_suffix ps1 = codes ".ps1"
  default_suffix auto = codes ".ps1"

  abbrev pub root_of : Option FilePath → FilePath → FilePath
  root_of none entry = naming.parent entry
  root_of (some root) entry = disk.resolve (disk.expanduser root)

  abbrev pub destination_of : Option FilePath → RunnerFormat → FilePath → FilePath
  destination_of none format entry = naming.with_suffix entry (default_suffix format)
  destination_of (some dest) format entry = disk.expanduser dest

  -- The destination, the files to pack and the external names.
  abbrev pub Planned : Type 0
  Planned = Result (PackError FilePath) (FilePath × Found disk × List Text)

  module _ (parse : Text → Option (List Node)) (stdlib_names : List Text) where
    abbrev pub guarded :
        FilePath
        → Bool
        → Option (Result (PackError FilePath) (Found disk × List Text))
        → Option Planned
    guarded destination force none = none
    guarded destination force (some (err e)) = some (err e)
    guarded destination force (some (ok (found, external_names))) = some (
        guard_destination destination (paths disk found) force
        >> ok (destination, found, external_names))

    abbrev pub plan_from :
        ℕ
        → Option FilePath
        → Options FilePath
        → Result (PackError FilePath) FilePath
        → Option Planned
    plan_from fuel dest options (err e) = some (err e)
    plan_from fuel dest options (ok entry) =
        guarded (destination_of dest (resolve_format options.format dest) entry) options.force (
          collect_sources disk parse stdlib_names (root_of options.root entry) fuel entry
            options.include)

    unfoldable pub plan : ℕ → FilePath → Option FilePath → Options FilePath → Option Planned
    plan fuel entry dest options = plan_from fuel dest options (existing_file disk entry)

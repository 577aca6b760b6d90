-- ===== src/Packer/Disk.antt =====
-- The file system as the packer sees it, and the lookups of files in it: `_resolve_local`,
-- `_package_parts`, `_existing_file`, `_read_bytes` and `_require_under_root` of
-- src/pwshpy/adapters/native/packer.py.
use pwshpy.Base.{
  Bool, true, false, ◌≡◌, ◌↔◌, List, [], ◌∷◌, Option, none, some, if◌then◌else◌, Result, ok, err,
}
use pwshpy.Text.{Text}
use pwshpy.Packing.Imports.{ImportError, candidate_relative_paths}

-- `pathlib` and the files: paths are compared, joined with a relative path, resolved, and read.
pub record Disk (FilePath Body : Type 0) : Type 0 where
  pub same : FilePath → FilePath → Bool
  pub same_iff : (p q : FilePath) → (same p q ≡ true) ↔ (p ≡ q)
  pub child : FilePath → Text → FilePath
  pub expanduser : FilePath → FilePath
  pub resolve : FilePath → FilePath
  pub is_file : FilePath → Bool
  pub exists : FilePath → Bool
  pub parts_below : FilePath → FilePath → Option (List Text)
  pub read : FilePath → Option Body
  pub decode : Body → Text
  pub name_of : FilePath → Text

-- The `PackError`s, and the refusal of a source that is not Python.
pub data PackError (FilePath : Type 0) : Type 0 where
  not_found : FilePath → PackError FilePath
  cannot_read : FilePath → PackError FilePath
  outside_root : FilePath → PackError FilePath
  bad_source : ImportError → PackError FilePath
  destination_is_packed : FilePath → PackError FilePath
  already_exists : FilePath → PackError FilePath

-- `parts[:-1]`
unfoldable pub without_last_part : List Text → List Text
without_last_part [] = []
without_last_part (p ∷ []) = []
without_last_part (p ∷ q ∷ ps) = p ∷ without_last_part (q ∷ ps)

abbrev pub parts_or_none : Option (List Text) → List Text
parts_or_none none = []
parts_or_none (some parts) = without_last_part parts

module _ {FilePath Body : Type 0} (disk : Disk FilePath Body) where
  abbrev pub first_file : List FilePath → Option FilePath
  first_file [] = none
  first_file (p ∷ ps) = if disk.is_file p then some (disk.resolve p) else first_file ps

  unfoldable pub resolve_local : FilePath → Text → Option FilePath
  resolve_local root dotted =
      let (file, package_file) = candidate_relative_paths dotted in
      first_file (disk.child root file ∷ disk.child root package_file ∷ [])

  -- `path.resolve().relative_to(root)`, `none` where the path is not below the root
  abbrev pub relative : FilePath → FilePath → Option (List Text)
  relative root path = disk.parts_below (disk.resolve path) root

  unfoldable pub package_parts : FilePath → FilePath → List Text
  package_parts root path = parts_or_none (relative root path)

  unfoldable pub existing_file : FilePath → Result (PackError FilePath) FilePath
  existing_file path =
      if disk.is_file (disk.expanduser path)
      then ok (disk.resolve (disk.expanduser path))
      else err (not_found path)

  abbrev pub body_or_error : FilePath → Option Body → Result (PackError FilePath) Body
  body_or_error path none = err (cannot_read path)
  body_or_error path (some body) = ok body

  unfoldable pub read_bytes : FilePath → Result (PackError FilePath) Body
  read_bytes path = body_or_error path (disk.read path)

  abbrev pub is_below : Option (List Text) → Bool
  is_below none = false
  is_below (some parts) = true

  unfoldable pub require_under_root : FilePath → FilePath → Result (PackError FilePath) (Unit {0})
  require_under_root root path =
      if is_below (relative root path) then ok tt else err (outside_root path)

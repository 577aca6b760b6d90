-- ===== src/Packer/Collect.antt =====
-- The walk over a script's local imports: `_collect_sources` of
-- src/pwshpy/adapters/native/packer.py.
pub mod Rounds
pub mod Reached
pub mod Ends
pub mod Returned
use pwshpy.Base.{
  ℕ, zero, suc, Bool, true, false, ◌&&◌, ◌||◌, not, List, [], ◌∷◌, ◌++◌, map, Option, none, some,
  if◌then◌else◌, Result, ok, err, ◌>>=◌, ◌>>◌,
}
use pwshpy.Text.{Text, mem_text, split}
use pwshpy.Packing.Imports.{
  Node, ImportError, ImportKind, stdlib, local, external, dot, first_part, iter_import_candidates,
  classify_import,
}
use pwshpy.Packer.Disk.{
  Disk, PackError, bad_source, resolve_local, package_parts, existing_file, read_bytes,
  require_under_root,
}

module _ {FilePath Body : Type 0} (disk : Disk FilePath Body) where
  -- The dictionary of the files, in the order of their insertion.
  abbrev pub Found : Type 0
  Found = List (FilePath × Body)

  abbrev pub paths : Found → List FilePath
  paths [] = []
  paths ((p, body) ∷ found) = p ∷ paths found

  -- `path in found`
  unfoldable pub has : Found → FilePath → Bool
  has [] path = false
  has ((p, body) ∷ found) path = disk.same p path || has found path

  abbrev pub as_pack_error : {A : Type 0} → Result ImportError A → Result (PackError FilePath) A
  as_pack_error (ok a) = ok a
  as_pack_error (err e) = err (bad_source e)

  abbrev pub Collected : Type 0
  Collected = Result (PackError FilePath) (Found × List Text)

  abbrev pub go_on_with :
      Result (PackError FilePath) (Body × List Text)
      → (Body × List Text → Option Collected)
      → Option Collected
  go_on_with (err e) rest = some (err e)
  go_on_with (ok imports) rest = rest imports

  -- What the walk depends on: `ast.parse` followed by `ast.walk`, `sys.stdlib_module_names` and the
  -- root directory.
  module _ (parse : Text → Option (List Node)) (stdlib_names : List Text) (root : FilePath) where
    -- `frozenset({dotted}) if resolved is not None else frozenset()`
    abbrev pub local_names : Text → Option FilePath → List Text
    local_names dotted none = []
    local_names dotted (some path) = dotted ∷ []

    abbrev pub add_name : Text → List Text → List Text
    add_name name names = if mem_text name names then names else name ∷ names

    -- The names that look external and the files to visit, behind one import.
    abbrev pub by_kind :
        Found
        → List Text
        → List FilePath
        → Text
        → ImportKind
        → Option FilePath
        → List Text × List FilePath
    by_kind found external_names pending dotted external resolved =
        (add_name (first_part (split dot dotted)) external_names, pending)
    by_kind found external_names pending dotted stdlib resolved = (external_names, pending)
    by_kind found external_names pending dotted local none = (external_names, pending)
    by_kind found external_names pending dotted local (some path) =
        (external_names, if not (has found path) then path ∷ pending else pending)

    unfoldable pub one_import : Found → List Text → List FilePath → Text → List Text × List FilePath
    one_import found external_names pending dotted =
        let resolved = resolve_local disk root dotted in
        by_kind found external_names pending dotted
          (classify_import dotted stdlib_names (local_names dotted resolved)) resolved

    -- The loop over the imports of a file.
    unfoldable pub visit : Found → List Text → List FilePath → List Text → List Text × List FilePath
    visit found external_names pending [] = (external_names, pending)
    visit found external_names pending (dotted ∷ names) =
        let (external_names1, pending1) = one_import found external_names pending dotted in
        visit found external_names1 pending1 names

    -- A file's body and the names it imports.
    unfoldable pub imports_of : FilePath → Result (PackError FilePath) (Body × List Text)
    imports_of path = read_bytes disk path >>= λ body.
        as_pack_error (
          iter_import_candidates parse (disk.decode body) (package_parts disk root path)
            (disk.name_of path))
        >>= λ names. ok (body, names)

    -- `while pending`, on fuel; the last file of the stack is the first of the list.
    unfoldable pub collect_from : ℕ → Found → List Text → List FilePath → Option Collected
    collect_from zero found external_names pending = none
    collect_from (suc fuel) found external_names [] = some (ok (found, external_names))
    collect_from (suc fuel) found external_names (current ∷ pending) =
        let skipped = collect_from fuel found external_names pending in
        let visited = go_on_with (imports_of current) (λ (body, names).
          let found1 = found ++ (current, body) ∷ [] in
          let (external_names1, pending1) = visit found1 external_names pending names in
          collect_from fuel found1 external_names1 pending1) in
        if has found current then skipped else visited

    -- `for extra in include`
    unfoldable pub add_included : Found → List FilePath → Result (PackError FilePath) Found
    add_included found [] = ok found
    add_included found (extra ∷ extras) = existing_file disk extra >>= λ path.
        if has found path
        then add_included found extras
        else (read_bytes disk path >>= λ body. add_included (found ++ (path, body) ∷ []) extras)

    -- `for path in found: _require_under_root(path, root)`
    unfoldable pub require_all_under_root : List FilePath → Result (PackError FilePath) (Unit {0})
    require_all_under_root [] = ok tt
    require_all_under_root (p ∷ ps) = require_under_root disk root p >> require_all_under_root ps

    abbrev pub is_unresolved : Option FilePath → Bool
    is_unresolved none = true
    is_unresolved (some path) = false

    -- The names that do not resolve to a file.
    unfoldable pub unresolved : List Text → List Text
    unresolved [] = []
    unresolved (name ∷ names) =
        let rest = unresolved names in
        if is_unresolved (resolve_local disk root name) then name ∷ rest else rest

    abbrev pub finish :
        List FilePath → Found × List Text → Result (PackError FilePath) (Found × List Text)
    finish include (found, external_names) = add_included found include >>= λ all_found.
        require_all_under_root (paths all_found) >> ok (all_found, unresolved external_names)

    abbrev pub finish_if_ended : List FilePath → Option Collected → Option Collected
    finish_if_ended include none = none
    finish_if_ended include (some r) = some (r >>= finish include)

    -- The names of the set are returned in any order: `sorted` is left to the caller.
    unfoldable pub collect_sources : ℕ → FilePath → List FilePath → Option Collected
    collect_sources fuel entry include =
        finish_if_ended include (collect_from fuel [] [] (entry ∷ []))

-- ===== src/Packer/Collect/Rounds.antt =====
-- One round of the walk.
use pwshpy.Base.{
  ℕ, zero, suc, ◌≡◌, refl, List, [], ◌∷◌, ◌++◌, Option, none, some, ok, if◌then◌else◌,
}
use pwshpy.Text.{Text}
use pwshpy.Packing.Imports.{Node}
use pwshpy.Packer.Disk.{Disk}
use pwshpy.Packer.Collect.{Found, has, visit, imports_of, Collected, go_on_with, collect_from}

module _ {FilePath Body : Type 0} (disk : Disk FilePath Body) (parse : Text → Option (List Node))
    (stdlib_names : List Text) (root : FilePath) where
  pub collect_from-zero :
      (found : Found disk) (external_names : List Text) (pending : List FilePath)
      → collect_from disk parse stdlib_names root zero found external_names pending ≡ none
  collect_from-zero found external_names pending = unfold collect_from in refl

  pub collect_from-end :
      (fuel : ℕ) (found : Found disk) (external_names : List Text)
      → collect_from disk parse stdlib_names root (suc fuel) found external_names []
        ≡ some (ok (found, external_names))
  collect_from-end fuel found external_names = unfold collect_from in refl

  -- The files behind a new file whose imports are read.
  abbrev pub visited :
      ℕ
      → Found disk
      → List Text
      → FilePath
      → List FilePath
      → Body × List Text
      → Option (Collected disk)
  visited fuel found external_names current pending (body, names) =
      let found2 = found ++ (current, body) ∷ [] in
      let (external_names2, pending2) =
        visit disk parse stdlib_names root found2 external_names pending names in
      collect_from disk parse stdlib_names root fuel found2 external_names2 pending2

  pub collect_from_step :
      (fuel : ℕ) (found : Found disk) (external_names : List Text) (current : FilePath)
      (pending : List FilePath)
      → collect_from disk parse stdlib_names root
          (suc fuel)
          found
          external_names
          (current ∷ pending)
        ≡ (if has disk found current
            then collect_from disk parse stdlib_names root fuel found external_names pending
            else go_on_with disk
                (imports_of disk parse stdlib_names root current)
                (visited fuel found external_names current pending))
  collect_from_step fuel found external_names current pending = unfold collect_from in refl

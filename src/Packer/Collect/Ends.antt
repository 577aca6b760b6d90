-- ===== src/Packer/Collect/Ends.antt =====
-- The walk ends where the imports lead to finitely many files.
use pwshpy.Base.{
  ℕ, zero, suc, ◌≤◌, ◌<◌, ◌≡◌, refl, sym, ap, ◌∙◌, true, false, ◌||◌, List, [], ◌∷◌, ◌++◌, Option,
  some, Bool-cases, inl, inr, In, Result, ok, err, if◌then◌else◌, arith,
}
use pwshpy.Text.{Text}
use pwshpy.Packing.Imports.{Node}
use pwshpy.Packer.Disk.{Disk, PackError, resolve_local}
use pwshpy.Packer.Collect.{Found, has, visit, imports_of, Collected, collect_from}
use pwshpy.Packer.Collect.Reached.{visit-from}
use pwshpy.Packer.Collect.Rounds.{collect_from-end, collect_from_step}

module _ {FilePath Body : Type 0} (disk : Disk FilePath Body) where
  has-append :
      (found : Found disk) (p : FilePath) (body : Body) (q : FilePath)
      → has disk (found ++ (p, body) ∷ []) q ≡ (has disk found q || disk.same p q)
  unfolding has
  has-append [] p body q = ground arith
  has-append ((r, b) ∷ found) p body q = ground (arith, has-append found p body q)

  -- How many files of a list are not found.
  missing : Found disk → List FilePath → ℕ
  missing found [] = 0
  missing found (u ∷ files) =
      let rest = missing found files in if has disk found u then rest else suc rest

  missing-append-le :
      (found : Found disk) (p : FilePath) (body : Body) (files : List FilePath)
      → missing (found ++ (p, body) ∷ []) files ≤ missing found files
  unfolding missing
  missing-append-le found p body [] = omega arith
  missing-append-le found p body (u ∷ files) =
      ground (arith, has-append found p body u, missing-append-le found p body files)

  missing-append-lt :
      (found : Found disk) (p : FilePath) (body : Body) (files : List FilePath)
      → In p files
      → has disk found p ≡ false
      → missing (found ++ (p, body) ∷ []) files < missing found files
  unfolding missing
  missing-append-lt found p body [] m new = absurd m
  missing-append-lt found p body (u ∷ files) (inl e) new =
      let here : has disk found u ≡ false = ap (has disk found) (sym e) ∙ new in
      let same : disk.same p u ≡ true = (disk.same_iff p u).1 e in
      ground (arith, has-append found p body u, missing-append-le found p body files)
  missing-append-lt found p body (u ∷ files) (inr m) new =
      ground (arith, has-append found p body u, missing-append-lt found p body files m new)

  module _ (parse : Text → Option (List Node)) (stdlib_names : List Text) (root : FilePath)
      (files : List FilePath)
      (finite : (dotted : Text) (q : FilePath)
        → resolve_local disk root dotted ≡ some q
        → In q files) where
    abbrev Ends : Found disk → List Text → List FilePath → Type 0
    Ends found external_names pending =
        (fuel : ℕ) × (r : Collected disk) × (collect_from disk parse stdlib_names root fuel found
            external_names pending
          ≡ some r)

    visited-AllIn :
        (found : Found disk) (external_names : List Text) (pending : List FilePath)
        (names : List Text)
        → ((p : FilePath) → In p pending → In p files)
        → (p : FilePath)
        → In p (visit disk parse stdlib_names root found external_names pending names).1
        → In p files
    visited-AllIn found external_names pending names all_in p m =
        elim (visit-from disk parse stdlib_names root found external_names pending names p m) [
          | inl i ↦ all_in p i
          | inr (dotted, i, e) ↦ finite dotted p e
        ]

    -- A new file, if the walk ends behind it.
    visit-Ends :
        (found : Found disk) (external_names : List Text) (current : FilePath)
        (pending : List FilePath) (r : Result (PackError FilePath) (Body × List Text))
        → imports_of disk parse stdlib_names root current ≡ r
        → has disk found current ≡ false
        → ((body : Body) (names : List Text)
            → let found2 = found ++ (current, body) ∷ [] in
              let next = visit disk parse stdlib_names root found2 external_names pending names in
              Ends found2 next.0 next.1)
        → Ends found external_names (current ∷ pending)
    visit-Ends found external_names current pending (err e) imports new rest =
        (1, err e, rw (collect_from_step disk parse stdlib_names root, new, imports) refl)
    visit-Ends found external_names current pending (ok (body, names)) imports new rest =
        let (fuel, r, e) = rest body names in
        (suc fuel, r, rw (collect_from_step disk parse stdlib_names root, new, imports) e)

    -- The stack of one state of the files, if the walk ends for fewer files that are missing.
    pending-Ends :
        (found : Found disk)
        → ((f : Found disk) (e : List Text) (p : List FilePath)
            → missing f files < missing found files
            → ((q : FilePath) → In q p → In q files)
            → Ends f e p)
        → (external_names : List Text) (pending : List FilePath)
        → ((p : FilePath) → In p pending → In p files)
        → Ends found external_names pending
    pending-Ends found smaller external_names [] all_in = (
      1,
      ok (found, external_names),
      collect_from-end disk parse stdlib_names root zero found external_names,
    )
    pending-Ends found smaller external_names (current ∷ pending) all_in =
        elim (Bool-cases (has disk found current)) [
          | inl old ↦
              let (fuel, r, e) =
                pending-Ends found smaller external_names pending (λ p m. all_in p (inr m)) in
              (suc fuel, r, rw (collect_from_step disk parse stdlib_names root, old) e)
          | inr new ↦
              visit-Ends found external_names current pending
                (imports_of disk parse stdlib_names root current) refl new
                (λ body names.
                  let found2 = found ++ (current, body) ∷ [] in
                  smaller found2 _ _
                    (missing-append-lt found current body files (all_in current (inl refl)) new)
                    (visited-AllIn found2 external_names pending names (λ p m. all_in p (inr m))))
        ]

    collect_from-Ends :
        (bound : ℕ) (found : Found disk) (external_names : List Text) (pending : List FilePath)
        → missing found files ≤ bound
        → ((p : FilePath) → In p pending → In p files)
        → Ends found external_names pending
    collect_from-Ends zero found external_names pending low all_in =
        pending-Ends found (λ f e p fewer i. absurd (omega (arith, fewer, low))) external_names
          pending all_in
    collect_from-Ends (suc bound) found external_names pending low all_in =
        pending-Ends found
          (λ f e p fewer i. collect_from-Ends bound f e p (omega (arith, fewer, low)) i)
          external_names pending all_in

    -- If the names that resolve to a file resolve to one of finitely many, enough fuel gives the
    -- walk from one of these files a result, whatever imports what.
    pub collect_from-ends :
        (entry : FilePath)
        → In entry files
        → (fuel : ℕ) × (r : Collected disk) × (collect_from disk parse stdlib_names root fuel [] []
              (entry ∷ [])
            ≡ some r)
    collect_from-ends entry m =
        collect_from-Ends (missing [] files) [] [] (entry ∷ []) (omega arith)
          (λ p i. elim i [ inl e ↦ rw e m | inr j ↦ absurd j ])

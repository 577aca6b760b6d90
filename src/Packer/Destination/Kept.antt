-- ===== src/Packer/Destination/Kept.antt =====
-- What packing does not overwrite.
use pwshpy.Base.{
  ℕ, Bool, false, ◌≡◌, ◌≢◌, refl, ap, subst, ◌∙◌, List, [], ◌∷◌, Option, none, some, Bool-cases,
  inl, inr, In, Result, ok, err, ◌>>◌,
}
use pwshpy.Text.{Text}
use pwshpy.Packing.Imports.{Node}
use pwshpy.Packer.Disk.{Disk, PackError, existing_file}
use pwshpy.Packer.Collect.{Found, paths, collect_sources}
use pwshpy.Packer.Collect.Returned.{IsPacked, collect_sources-IsPacked}
use pwshpy.Packer.Destination.{
  Naming, Options, is_source, guard_destination, root_of, guarded, plan_from, plan,
}

module _ {FilePath Body : Type 0} (disk : Disk FilePath Body) (naming : Naming FilePath) where
  is_source-false :
      (destination : FilePath) (sources : List FilePath)
      → is_source disk naming destination sources ≡ false
      → (p : FilePath) → In p sources
      → disk.resolve destination ≢ disk.resolve p
  is_source-false destination [] h p m = absurd m
  is_source-false destination (q ∷ sources) h p m =
      elim (Bool-cases (disk.same (disk.resolve destination) (disk.resolve q))) [
        | inl same ↦ absurd (cc (rw same at h))
        | inr differs ↦ elim m [
          | inl e ↦ λ s. absurd (
              cc (
                differs,
                (disk.same_iff (disk.resolve destination) (disk.resolve q)).1
                    (s ∙ ap disk.resolve e),
              ))
          | inr i ↦ is_source-false destination sources (rw differs at h) p i
        ]
      ]

  -- The destination is none of the files, and new unless overwriting was asked for.
  pub IsGuarded : FilePath → List FilePath → Bool → Type 0
  IsGuarded destination sources force =
      ((p : FilePath) → In p sources → disk.resolve destination ≢ disk.resolve p)
      × (force ≡ false → disk.exists destination ≡ false)

  guard_destination-IsGuarded :
      (destination : FilePath) (sources : List FilePath) (force : Bool)
      → guard_destination disk naming destination sources force ≡ ok tt
      → IsGuarded destination sources force
  unfolding guard_destination IsGuarded
  guard_destination-IsGuarded destination sources force h =
      elim (Bool-cases (is_source disk naming destination sources)) [
        | inl packed ↦ absurd (cc (rw packed at h))
        | inr apart ↦ (
          is_source-false destination sources apart,
          λ unforced. elim (Bool-cases (disk.exists destination)) [
            | inl old ↦ absurd (cc (rw (apart, old, unforced) at h))
            | inr new ↦ new
          ],
        )
      ]

  module _ (parse : Text → Option (List Node)) (stdlib_names : List Text) where
    -- A plan to pack: the files are those that packing must hold, and the destination is guarded.
    abbrev pub IsPlan : Options FilePath → FilePath → FilePath × Found disk × List Text → Type 0
    IsPlan options entry (destination, found, names) =
        IsPacked disk parse stdlib_names (root_of disk naming options.root entry) entry found names
        × IsGuarded destination (paths disk found) options.force

    checked-IsPlan :
        (fuel : ℕ) (options : Options FilePath) (entry d : FilePath) (found : Found disk)
        (names : List Text) {planned : FilePath × Found disk × List Text}
        → collect_sources disk parse stdlib_names
            (root_of disk naming options.root entry)
            fuel
            entry
            options.include
          ≡ some (ok (found, names))
        → (r : Result (PackError FilePath) (Unit {0}))
        → guard_destination disk naming d (paths disk found) options.force ≡ r
        → (r >> ok (d, found, names)) ≡ ok planned
        → IsPlan options entry planned
    checked-IsPlan fuel options entry d found names c (err e) g h = absurd (cc)
    checked-IsPlan fuel options entry d found names {planned} c (ok u) g h =
        let same : (d, found, names) ≡ planned = cc in
        subst (λ t. IsPlan options entry t) same
          (
            collect_sources-IsPacked disk parse stdlib_names
                (root_of disk naming options.root entry) fuel entry options.include found names c,
            guard_destination-IsGuarded d (paths disk found) options.force g,
          )

    guarded-IsPlan :
        (fuel : ℕ) (options : Options FilePath) (entry d : FilePath)
        (collected : Option (Result (PackError FilePath) (Found disk × List Text)))
        {planned : FilePath × Found disk × List Text}
        → collect_sources disk parse stdlib_names
            (root_of disk naming options.root entry)
            fuel
            entry
            options.include
          ≡ collected
        → guarded disk naming parse stdlib_names d options.force collected ≡ some (ok planned)
        → IsPlan options entry planned
    guarded-IsPlan fuel options entry d none c h = absurd (cc)
    guarded-IsPlan fuel options entry d (some (err e)) c h = absurd (cc)
    guarded-IsPlan fuel options entry d (some (ok (found, names))) c h =
        checked-IsPlan fuel options entry d found names c
          (guard_destination disk naming d (paths disk found) options.force) refl (cc (h))

    plan_from-IsPlan :
        (fuel : ℕ) (entry : FilePath) (dest : Option FilePath) (options : Options FilePath)
        (r : Result (PackError FilePath) FilePath) {planned : FilePath × Found disk × List Text}
        → plan_from disk naming parse stdlib_names fuel dest options r ≡ some (ok planned)
        → (file : FilePath) × (r ≡ ok file) × IsPlan options file planned
    plan_from-IsPlan fuel entry dest options (err e) h = absurd (cc)
    plan_from-IsPlan fuel entry dest options (ok file) h =
        (file, refl, guarded-IsPlan fuel options file _ _ refl h)

    -- Where packing gets as far as writing the runner, the files hold every file that the entry's
    -- imports reach and none outside the root, no name reported as external resolves to a file below
    -- the root, the destination is none of the files, and it is new unless overwriting was asked for.
    pub plan-IsPlan :
        (fuel : ℕ) (entry : FilePath) (dest : Option FilePath) (options : Options FilePath)
        (planned : FilePath × Found disk × List Text)
        → plan disk naming parse stdlib_names fuel entry dest options ≡ some (ok planned)
        → (file : FilePath) × (existing_file disk entry ≡ ok file) × IsPlan options file planned
    unfolding plan
    plan-IsPlan fuel entry dest options planned h =
        plan_from-IsPlan fuel entry dest options (existing_file disk entry) h

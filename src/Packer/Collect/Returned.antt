-- ===== src/Packer/Collect/Returned.antt =====
-- What `_collect_sources` returns.
use pwshpy.Base.{
  first_step, first_check, ℕ, ◌≡◌, refl, sym, ap, subst, ◌∙◌, true, List, [], ◌∷◌, ◌++◌, Option,
  none, some, Bool-cases, Option-cases, inl, inr, In, In-left, ok, err, ◌>>=◌,
}
use pwshpy.Text.{Text}
use pwshpy.Packing.Imports.{Node}
use pwshpy.Packer.Disk.{
  Disk, resolve_local, relative, is_below, existing_file, read_bytes, require_under_root,
}
use pwshpy.Packer.Collect.{
  Found, paths, has, Collected, collect_from, add_included, require_all_under_root, unresolved,
  finish, finish_if_ended, collect_sources,
}
use pwshpy.Packer.Collect.Reached.{paths-append, Reaches}
use pwshpy.Packer.Collect.Reached.Closed.{collect_from-Reaches}

module _ {FilePath Body : Type 0} (disk : Disk FilePath Body) (parse : Text → Option (List Node))
    (stdlib_names : List Text) (root : FilePath) where
  add_included-keeps :
      (found : Found disk) (include : List FilePath) {all_found : Found disk}
      → add_included disk parse stdlib_names root found include ≡ ok all_found
      → (p : FilePath) → In p (paths disk found)
      → In p (paths disk all_found)
  unfolding add_included
  add_included-keeps found [] h p m =
      let same : paths disk found ≡ paths disk _ = cc in subst (λ l. In p l) same m
  add_included-keeps found (extra ∷ extras) {all_found} h p m =
      let (path, e, k) = first_step (existing_file disk extra) _ h in
      elim (Bool-cases (has disk found path)) [
        | inl old ↦ add_included-keeps found extras (rw old at k) p m
        | inr new ↦
            let (body, r, l) = first_step (read_bytes disk path) _ (rw new at k) in
            add_included-keeps (found ++ (path, body) ∷ []) extras l p
              (rw (paths-append disk found path body) (In-left p (paths disk found) (path ∷ []) m))
      ]

  require_under_root-is_below :
      (p : FilePath)
      → require_under_root disk root p ≡ ok tt
      → is_below disk (relative disk root p) ≡ true
  unfolding require_under_root
  require_under_root-is_below p h = elim (Bool-cases (is_below disk (relative disk root p))) [
    | inl below ↦ below
    | inr outside ↦ absurd (cc (rw outside at h))
  ]

  all_under_root :
      (ps : List FilePath)
      → require_all_under_root disk parse stdlib_names root ps ≡ ok tt
      → (p : FilePath) → In p ps
      → is_below disk (relative disk root p) ≡ true
  unfolding require_all_under_root
  all_under_root [] h p m = absurd m
  all_under_root (q ∷ ps) h p m =
      let (first, rest) = first_check (require_under_root disk root q) _ h in
      elim m [
        | inl e ↦ rw e (require_under_root-is_below q first)
        | inr i ↦ all_under_root ps rest p i
      ]

  this_or_later :
      (n name : Text) (names : List Text)
      → resolve_local disk root n ≡ none
      → (In name names → resolve_local disk root name ≡ none)
      → In name (n ∷ names)
      → resolve_local disk root name ≡ none
  this_or_later n name names here later (inl e) = ap (resolve_local disk root) e ∙ here
  this_or_later n name names here later (inr i) = later i

  unresolved-none :
      (names : List Text) (name : Text)
      → In name (unresolved disk parse stdlib_names root names)
      → resolve_local disk root name ≡ none
  unfolding unresolved
  unresolved-none [] name m = absurd m
  unresolved-none (n ∷ names) name m = elim (Option-cases (resolve_local disk root n)) [
    | inl e ↦
        this_or_later n name (unresolved disk parse stdlib_names root names) e
          (λ i. unresolved-none names name i) (rw e at m)
    | inr (q, e) ↦ unresolved-none names name (rw e at m)
  ]

  -- What is packed: nothing outside the root, and no name that a file below the root answers to.
  pub IsPacked : FilePath → Found disk → List Text → Type 0
  IsPacked entry found names =
      ((p : FilePath) → Reaches disk parse stdlib_names root entry p → In p (paths disk found))
      × ((p : FilePath) → In p (paths disk found) → is_below disk (relative disk root p) ≡ true)
      × ((name : Text) → In name names → resolve_local disk root name ≡ none)

  finish-IsPacked :
      (entry : FilePath) (include : List FilePath) (walked : Collected disk) (found : Found disk)
      (names : List Text) (fuel : ℕ)
      → collect_from disk parse stdlib_names root fuel [] [] (entry ∷ []) ≡ some walked
      → (walked >>= finish disk parse stdlib_names root include) ≡ ok (found, names)
      → IsPacked entry found names
  unfolding IsPacked
  finish-IsPacked entry include (err e) found names fuel w h = absurd (cc)
  finish-IsPacked entry include (ok (walked, external_names)) found names fuel w h =
      let (all_found, added, k) =
        first_step (add_included disk parse stdlib_names root walked include) _ h in
      let (below, l) =
        first_check (require_all_under_root disk parse stdlib_names root (paths disk all_found)) _
          k in
      let same : all_found ≡ found = cc in
      let same_names : unresolved disk parse stdlib_names root external_names ≡ names = cc in
      (
        λ p r.
            subst (λ f. In p (paths disk f)) same
              (add_included-keeps walked include added p (
                (collect_from-Reaches disk parse stdlib_names root entry fuel walked external_names
                    w p).1
                  r)),
        λ p m.
            all_under_root (paths disk all_found) below p
              (subst (λ f. In p (paths disk f)) (sym same) m),
        λ name m. unresolved-none external_names name (subst (λ l. In name l) (sym same_names) m),
      )

  returned-IsPacked :
      (fuel : ℕ) (entry : FilePath) (include : List FilePath) (found : Found disk)
      (names : List Text) (walked : Option (Collected disk))
      → collect_from disk parse stdlib_names root fuel [] [] (entry ∷ []) ≡ walked
      → finish_if_ended disk parse stdlib_names root include walked ≡ some (ok (found, names))
      → IsPacked entry found names
  returned-IsPacked fuel entry include found names none w h = absurd (cc)
  returned-IsPacked fuel entry include found names (some r) w h =
      finish-IsPacked entry include r found names fuel w (cc)

  -- What `_collect_sources` returns holds every file that the entry's imports reach, only files
  -- below the root, and reports only names that no file below the root answers to.
  pub collect_sources-IsPacked :
      (fuel : ℕ) (entry : FilePath) (include : List FilePath) (found : Found disk)
      (names : List Text)
      → collect_sources disk parse stdlib_names root fuel entry include ≡ some (ok (found, names))
      → IsPacked entry found names
  unfolding collect_sources
  collect_sources-IsPacked fuel entry include found names h =
      returned-IsPacked fuel entry include found names _ refl h

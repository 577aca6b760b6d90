-- ===== src/Packer/Collect/Reached.antt =====
-- What the walk finds: the files that the script's imports reach.
pub mod Closed
use pwshpy.Base.{
  ℕ, zero, suc, ◌≡◌, ◌↔◌, refl, sym, ap, subst, ◌∙◌, Bool, true, false, ◌||◌, not, List, [], ◌∷◌,
  ◌++◌, Option, none, some, Bool-cases, Option-cases, inl, inr, ◌⊎◌, In, In-append, In-left,
  In-right, Result, ok, err, if◌then◌else◌, arith,
}
use pwshpy.Text.{Text, mem_text, text_eq, split}
use pwshpy.Text.Laws.{text_eq_refl}
use pwshpy.Packing.Imports.{
  Node, ImportKind, stdlib, local, external, dot, first_part, classify_import,
}
use pwshpy.Packer.Disk.{Disk, resolve_local}
use pwshpy.Packer.Collect.{
  Found, paths, has, local_names, add_name, by_kind, one_import, visit, imports_of,
}

classify_own :
    (dotted : Text) (stdlib_names : List Text)
    → classify_import dotted stdlib_names (dotted ∷ []) ≡ local
unfolding classify_import mem_text
classify_own dotted stdlib_names = rw text_eq_refl refl

module _ {FilePath Body : Type 0} (disk : Disk FilePath Body) where
  pub has→In :
      (found : Found disk) (p : FilePath) → has disk found p ≡ true → In p (paths disk found)
  unfolding has
  has→In [] p h = cc
  has→In ((q, body) ∷ found) p h = elim (Bool-cases (disk.same q p)) [
    | inl here ↦ inl (sym ((disk.same_iff q p).0 here))
    | inr later ↦ inr (has→In found p (rw later at h))
  ]

  pub In→has :
      (found : Found disk) (p : FilePath) → In p (paths disk found) → has disk found p ≡ true
  unfolding has
  In→has [] p m = absurd m
  In→has ((q, body) ∷ found) p (inl e) = rw ((disk.same_iff q p).1 (sym e)) refl
  In→has ((q, body) ∷ found) p (inr m) = ground (arith, In→has found p m)

  pub paths-append :
      (found : Found disk) (p : FilePath) (body : Body)
      → paths disk (found ++ (p, body) ∷ []) ≡ paths disk found ++ p ∷ []
  paths-append [] p body = refl
  paths-append ((q, b) ∷ found) p body = ap (λ ps. q ∷ ps) (paths-append found p body)

  module _ (parse : Text → Option (List Node)) (stdlib_names : List Text) (root : FilePath) where
    -- A file imports another: one of the names in it resolves to that file.
    abbrev pub Imports : FilePath → FilePath → Type 0
    Imports p q =
        (body : Body) × (names : List Text) × (imports_of disk parse stdlib_names root p
          ≡ ok (body, names))
        × ((dotted : Text) × In dotted names × (resolve_local disk root dotted ≡ some q))

    -- The files that a file's imports reach.
    pub data Reaches (p : FilePath) : FilePath → Type 0 where
      itself : Reaches p p
      further : {q r : FilePath} → Reaches p q → Imports q r → Reaches p r

    module _ (found : Found disk) where
      -- The stack behind one import.
      one_import-none :
          (external_names : List Text) (pending : List FilePath) (dotted : Text)
          → resolve_local disk root dotted ≡ none
          → (one_import disk parse stdlib_names root found external_names pending dotted).1
            ≡ pending
      unfolding one_import classify_import
      one_import-none external_names pending dotted e = rw e (ground arith)

      one_import-some :
          (external_names : List Text) (pending : List FilePath) (dotted : Text) (q : FilePath)
          → resolve_local disk root dotted ≡ some q
          → (one_import disk parse stdlib_names root found external_names pending dotted).1
            ≡ (if not (has disk found q) then q ∷ pending else pending)
      unfolding one_import
      one_import-some external_names pending dotted q e = rw (e, classify_own) refl

      one_import-keeps :
          (external_names : List Text) (pending : List FilePath) (dotted : Text) (q : FilePath)
          → In q pending
          → In q (one_import disk parse stdlib_names root found external_names pending dotted).1
      one_import-keeps external_names pending dotted q m =
          elim (Option-cases (resolve_local disk root dotted)) [
            | inl e ↦ rw (one_import-none external_names pending dotted e) m
            | inr (r, e) ↦ rw (one_import-some external_names pending dotted r e) (pushed-keeps r)
          ]
        where
          pushed-keeps :
              (r : FilePath) → In q (if not (has disk found r) then r ∷ pending else pending)
          pushed-keeps r = elim (Bool-cases (has disk found r)) [
            | inl old ↦ rw old m
            | inr new ↦ rw new (inr m)
          ]

      one_import-target :
          (external_names : List Text) (pending : List FilePath) (dotted : Text) (q : FilePath)
          → resolve_local disk root dotted ≡ some q
          → In q (paths disk found)
            ⊎ In q (one_import disk parse stdlib_names root found external_names pending dotted).1
      one_import-target external_names pending dotted q e =
          rw (one_import-some external_names pending dotted q e)
            (elim (Bool-cases (has disk found q)) [
              | inl old ↦ inl (has→In found q old)
              | inr new ↦ inr (rw new (inl refl))
            ])

      one_import-from :
          (external_names : List Text) (pending : List FilePath) (dotted : Text) (q : FilePath)
          → In q (one_import disk parse stdlib_names root found external_names pending dotted).1
          → In q pending ⊎ (resolve_local disk root dotted ≡ some q)
      one_import-from external_names pending dotted q m =
          elim (Option-cases (resolve_local disk root dotted)) [
            | inl e ↦ inl (rw (one_import-none external_names pending dotted e) at m)
            | inr (r, e) ↦
                pushed-from r e (rw (one_import-some external_names pending dotted r e) at m)
          ]
        where
          new_or_old :
              (r : FilePath)
              → resolve_local disk root dotted ≡ some r
              → In q (r ∷ pending)
              → In q pending ⊎ (resolve_local disk root dotted ≡ some q)
          new_or_old r e (inl same) = inr (e ∙ ap some (sym same))
          new_or_old r e (inr i) = inl i

          pushed-from :
              (r : FilePath)
              → resolve_local disk root dotted ≡ some r
              → In q (if not (has disk found r) then r ∷ pending else pending)
              → In q pending ⊎ (resolve_local disk root dotted ≡ some q)
          pushed-from r e i = elim (Bool-cases (has disk found r)) [
            | inl old ↦ inl (rw old at i)
            | inr new ↦ new_or_old r e (rw new at i)
          ]

      -- The same of all the imports of a file.
      pub visit-keeps :
          (external_names : List Text) (pending : List FilePath) (names : List Text) (q : FilePath)
          → In q pending
          → In q (visit disk parse stdlib_names root found external_names pending names).1
      unfolding visit
      visit-keeps external_names pending [] q m = m
      visit-keeps external_names pending (dotted ∷ names) q m =
          visit-keeps
            (one_import disk parse stdlib_names root found external_names pending dotted).0
            (one_import disk parse stdlib_names root found external_names pending dotted).1 names q
            (one_import-keeps external_names pending dotted q m)

      pub visit-target :
          (external_names : List Text) (pending : List FilePath) (names : List Text) (dotted : Text)
          (q : FilePath)
          → In dotted names
          → resolve_local disk root dotted ≡ some q
          → In q (paths disk found)
            ⊎ In q (visit disk parse stdlib_names root found external_names pending names).1
      unfolding visit
      visit-target external_names pending [] dotted q m e = absurd m
      visit-target external_names pending (d ∷ names) dotted q (inl same) e =
          elim (one_import-target external_names pending d q
            (ap (resolve_local disk root) (sym same) ∙ e)) [
              | inl i ↦ inl i
              | inr i ↦ inr (
                  visit-keeps
                    (one_import disk parse stdlib_names root found external_names pending d).0
                    (one_import disk parse stdlib_names root found external_names pending d).1 names
                    q i)
            ]
      visit-target external_names pending (d ∷ names) dotted q (inr m) e =
          visit-target (one_import disk parse stdlib_names root found external_names pending d).0
            (one_import disk parse stdlib_names root found external_names pending d).1 names dotted
            q m e

      pub visit-from :
          (external_names : List Text) (pending : List FilePath) (names : List Text) (q : FilePath)
          → In q (visit disk parse stdlib_names root found external_names pending names).1
          → In q pending
            ⊎ ((dotted : Text) × In dotted names × (resolve_local disk root dotted ≡ some q))
      unfolding visit
      visit-from external_names pending [] q m = inl m
      visit-from external_names pending (d ∷ names) q m =
          elim (visit-from
            (one_import disk parse stdlib_names root found external_names pending d).0
            (one_import disk parse stdlib_names root found external_names pending d).1 names q m) [
              | inr (dotted, i, e) ↦ inr (dotted, inr i, e)
              | inl i ↦ elim (one_import-from external_names pending d q i) [
                | inl j ↦ inl j
                | inr e ↦ inr (d, inl refl, e)
              ]
            ]

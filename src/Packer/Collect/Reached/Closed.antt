-- ===== src/Packer/Collect/Reached/Closed.antt =====
-- The walk finds exactly what the imports reach.
use pwshpy.Base.{
  ℕ, zero, suc, ◌≡◌, ◌↔◌, refl, subst, List, [], ◌∷◌, ◌++◌, Option, some, Bool-cases, inl, inr, ◌⊎◌,
  In, In-append, In-left, In-right, Result, ok, err,
}
use pwshpy.Text.{Text}
use pwshpy.Packing.Imports.{Node}
use pwshpy.Packer.Disk.{Disk, PackError}
use pwshpy.Packer.Collect.{
  Found, paths, has, visit, imports_of, Collected, go_on_with, collect_from,
}
use pwshpy.Packer.Collect.Rounds.{visited, collect_from-zero, collect_from-end, collect_from_step}
use pwshpy.Packer.Collect.Reached.{
  has→In, paths-append, Imports, Reaches, itself, further, visit-keeps, visit-target, visit-from,
}

module _ {FilePath Body : Type 0} (disk : Disk FilePath Body) (parse : Text → Option (List Node))
    (stdlib_names : List Text) (root entry : FilePath) where
  -- Between two rounds: the files that were found or wait are reached from the entry, and what a
  -- file that was found imports was found or waits; so the entry itself.
  pub record IsWalk (found : Found disk) (pending : List FilePath) : Type 0 where
    pub found_reached :
        (p : FilePath) → In p (paths disk found) → Reaches disk parse stdlib_names root entry p
    pub pending_reached :
        (p : FilePath) → In p pending → Reaches disk parse stdlib_names root entry p
    pub closed :
        (p q : FilePath)
        → In p (paths disk found)
        → Imports disk parse stdlib_names root p q
        → In q (paths disk found) ⊎ In q pending
    pub has_entry : In entry (paths disk found) ⊎ In entry pending

  start-IsWalk : IsWalk [] (entry ∷ [])
  start-IsWalk = record {
    found_reached = λ p m. absurd m;
    pending_reached = λ p m. elim m [ inl e ↦ rw e itself | inr i ↦ absurd i ];
    closed = λ p q m i. absurd m;
    has_entry = inr (inl refl);
  }

  skip-IsWalk :
      (found : Found disk) (current : FilePath) (pending : List FilePath)
      → IsWalk found (current ∷ pending)
      → In current (paths disk found)
      → IsWalk found pending
  skip-IsWalk found current pending walk old = record {
    found_reached = walk.found_reached;
    pending_reached = λ p m. walk.pending_reached p (inr m);
    closed = λ p q m i. still (walk.closed p q m i);
    has_entry = still walk.has_entry;
  }
    where
      still :
          {q : FilePath}
          → In q (paths disk found) ⊎ In q (current ∷ pending)
          → In q (paths disk found) ⊎ In q pending
      still (inl i) = inl i
      still (inr (inl e)) = inl (rw e old)
      still (inr (inr i)) = inr i

  module _ (found : Found disk) (external_names : List Text) (current : FilePath)
      (pending : List FilePath) (body : Body) (names : List Text) where
    abbrev found1 : Found disk
    found1 = found ++ (current, body) ∷ []

    abbrev pending1 : List FilePath
    pending1 = (visit disk parse stdlib_names root found1 external_names pending names).1

    In-found1 : (p : FilePath) → In p (paths disk found1) → In p (paths disk found) ⊎ (p ≡ current)
    In-found1 p m =
        elim (In-append p (paths disk found) (current ∷ [])
          (rw (paths-append disk found current body) at m)) [
            | inl i ↦ inl i
            | inr (inl e) ↦ inr e
            | inr (inr i) ↦ absurd i
          ]

    found-found1 : (p : FilePath) → In p (paths disk found) → In p (paths disk found1)
    found-found1 p m =
        rw (paths-append disk found current body) (In-left p (paths disk found) (current ∷ []) m)

    current-found1 : In current (paths disk found1)
    current-found1 =
        rw (paths-append disk found current body)
          (In-right current (paths disk found) (current ∷ []) (inl refl))

    moved :
        {q : FilePath}
        → In q (paths disk found) ⊎ In q (current ∷ pending)
        → In q (paths disk found1) ⊎ In q pending1
    moved (inl i) = inl (found-found1 _ i)
    moved (inr (inl e)) = inl (rw e current-found1)
    moved (inr (inr i)) =
        inr (visit-keeps disk parse stdlib_names root found1 external_names pending names _ i)

    visit-IsWalk :
        IsWalk found (current ∷ pending)
        → imports_of disk parse stdlib_names root current ≡ ok (body, names)
        → IsWalk found1 pending1
    visit-IsWalk walk e = record {
      found_reached = λ p m. elim (In-found1 p m) [
        | inl i ↦ walk.found_reached p i
        | inr same ↦ rw same (walk.pending_reached current (inl refl))
      ];
      pending_reached = λ p m.
          elim (visit-from disk parse stdlib_names root found1 external_names pending names p m) [
            | inl i ↦ walk.pending_reached p (inr i)
            | inr target ↦
                further (walk.pending_reached current (inl refl)) (body, names, e, target)
          ];
      closed = λ p q m i. elim (In-found1 p m) [
        | inl old ↦ moved (walk.closed p q old i)
        | inr same ↦ targets q (subst (λ z. Imports disk parse stdlib_names root z q) same i)
      ];
      has_entry = moved walk.has_entry;
    }
      where
        targets :
            (q : FilePath)
            → Imports disk parse stdlib_names root current q
            → In q (paths disk found1) ⊎ In q pending1
        targets q (body', names', e', (dotted, m, r)) =
            let same : names' ≡ names = cc in
            visit-target disk parse stdlib_names root found1 external_names pending names dotted q
              (subst (λ l. In dotted l) same m) r

  abbrev collect : ℕ → Found disk → List Text → List FilePath → Option (Collected disk)
  collect = collect_from disk parse stdlib_names root

  -- A file that is new: its imports are visited, if the rest of the walk is as it should be.
  visited-IsWalk :
      (fuel : ℕ) (found : Found disk) (external_names : List Text) (current : FilePath)
      (pending : List FilePath) {found' : Found disk} {external' : List Text}
      → IsWalk found (current ∷ pending)
      → ((f : Found disk) (e : List Text) (p : List FilePath)
          → IsWalk f p
          → collect fuel f e p ≡ some (ok (found', external'))
          → IsWalk found' [])
      → (r : Result (PackError FilePath) (Body × List Text))
      → imports_of disk parse stdlib_names root current ≡ r
      → go_on_with disk r
          (visited disk parse stdlib_names root fuel found external_names current pending)
        ≡ some (ok (found', external'))
      → IsWalk found' []
  visited-IsWalk fuel found external_names current pending walk rest (err e) imports k = absurd (cc)
  visited-IsWalk fuel found external_names current pending walk rest (ok (body, names)) imports k =
      rest (found1 found external_names current pending body names) _
        (pending1 found external_names current pending body names)
        (visit-IsWalk found external_names current pending body names walk imports) k

  collect_from-IsWalk :
      (fuel : ℕ) (found : Found disk) (external_names : List Text) (pending : List FilePath)
      {found' : Found disk} {external' : List Text}
      → IsWalk found pending
      → collect fuel found external_names pending ≡ some (ok (found', external'))
      → IsWalk found' []
  collect_from-IsWalk zero found external_names pending walk h =
      absurd (cc (h, collect_from-zero disk parse stdlib_names root found external_names pending))
  collect_from-IsWalk (suc fuel) found external_names [] {found'} walk h =
      let same : found ≡ found' =
        cc (h, collect_from-end disk parse stdlib_names root fuel found external_names) in
      subst (λ f. IsWalk f []) same walk
  collect_from-IsWalk (suc fuel) found external_names (current ∷ pending) {found'} {external'} walk
        h =
      elim (Bool-cases (has disk found current)) [
        | inl old ↦
            collect_from-IsWalk fuel found external_names pending
              (skip-IsWalk found current pending walk (has→In disk found current old))
              (rw (collect_from_step disk parse stdlib_names root, old) at h)
        | inr new ↦
            visited-IsWalk fuel found external_names current pending walk
              (λ f e p w k. collect_from-IsWalk fuel f e p w k)
              (imports_of disk parse stdlib_names root current) refl
              (rw (collect_from_step disk parse stdlib_names root, new) at h)
      ]

  -- A walk that returns has found the files that the entry's imports reach, and no others.
  pub collect_from-Reaches :
      (fuel : ℕ) (found : Found disk) (external_names : List Text)
      → collect_from disk parse stdlib_names root fuel [] [] (entry ∷ [])
        ≡ some (ok (found, external_names))
      → (p : FilePath) → In p (paths disk found) ↔ Reaches disk parse stdlib_names root entry p
  collect_from-Reaches fuel found external_names h p =
      let walk = collect_from-IsWalk fuel [] [] (entry ∷ []) start-IsWalk h in
      (walk.found_reached p, reached walk)
    where
      found_only : (q : FilePath) → In q (paths disk found) ⊎ In q [] → In q (paths disk found)
      found_only q (inl i) = i
      found_only q (inr i) = absurd i

      reached :
          IsWalk found []
          → {q : FilePath} → Reaches disk parse stdlib_names root entry q
          → In q (paths disk found)
      reached walk itself = found_only _ walk.has_entry
      reached walk (further r i) = found_only _ (walk.closed _ _ (reached walk r) i)

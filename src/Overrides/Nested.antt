-- ===== src/Overrides/Nested.antt =====
-- What `nest_overrides` of src/pwshpy/adapters/config/overrides.py builds.
use pwshpy.Base.{
  Bool, true, false, ◌≡◌, ◌≢◌, refl, sym, ap, subst, ◌∙◌, List, [], ◌∷◌, ◌++◌, Option, none, some,
  map, Bool-cases, inl, inr, In, if◌then◌else◌, ok, first_step,
}
use pwshpy.Text.{Text, text_eq}
use pwshpy.Text.Laws.{text_eq→eq}
use pwshpy.Overrides.Tree.{Table, empty, leaf_at, path_eq, find}
use pwshpy.Overrides.Tree.Put.{leaf_at-put, put-eq_some}
use pwshpy.Overrides.Conflicts.{path_of, NoneUnder, refuse_conflicts-NoneUnder}
use pwshpy.Overrides.Parsed.{IsOverride, parse_override-eq_ok}
use pwshpy.Overrides.{
  parse_override, CoercedValue, ConfigOverride, dotted_key, parse_all, refuse_conflicts, put_value,
  nest_override, nest_all, nest_overrides,
}

path_eq→eq : (p q : List Text) → path_eq p q ≡ true → p ≡ q
unfolding path_eq
path_eq→eq [] [] h = refl
path_eq→eq [] (k ∷ ks) h = absurd (cc)
path_eq→eq (j ∷ js) [] h = absurd (cc)
path_eq→eq (j ∷ js) (k ∷ ks) h = elim (Bool-cases (text_eq j k)) [
  | inl e ↦ rw (text_eq→eq j k e, path_eq→eq js ks (cc (rw e at h))) refl
  | inr e ↦ absurd (cc (rw e at h))
]

abbrev pub or_else : {A : Type 0} → Option A → Option A → Option A
or_else none other = other
or_else (some a) other = some a

-- The fold's step: a value that is given later stands before what was there.
or_else-if :
    {A : Type 0} (later : Option A) (b : Bool) (v : A) (old : Option A)
    → or_else later (if b then some v else old)
      ≡ or_else (or_else later (if b then some v else none)) old
or_else-if none true v old = refl
or_else-if none false v old = refl
or_else-if (some a) b v old = refl

module _ {Json : Type 0} where
  -- The value of the last override with a path.
  pub last_value : List (ConfigOverride Json) → List Text → Option (CoercedValue Json)
  last_value [] p = none
  last_value (override ∷ overrides) p =
      or_else (last_value overrides p)
        (if path_eq p (path_of override) then some override.value else none)

  -- An override fits into a table: no value sits where it needs a table, and none below its path.
  Fits : Table (CoercedValue Json) → ConfigOverride Json → Type 0
  Fits t override =
      ((a : List Text) (x : Text) (s : List Text)
        → path_of override ≡ a ++ x ∷ s
        → leaf_at t a ≡ none)
      × ((x : Text) (s : List Text) → leaf_at t (path_of override ++ x ∷ s) ≡ none)

  nest_override-leaf_at :
      (t : Table (CoercedValue Json)) (override : ConfigOverride Json)
      → override.key_path ≢ []
      → Fits t override
      → (filled : Table (CoercedValue Json)) × (nest_override t override ≡ ok filled)
        × ((p : List Text)
            → leaf_at filled p
              ≡ (if path_eq p (path_of override) then some override.value else leaf_at t p))
  unfolding nest_override Fits
  nest_override-leaf_at t override keys (above, below) =
      put_at override.section override.key_path override.value keys above below
    where
      put_at :
          (section : Text) (key_path : List Text) (value : CoercedValue Json)
          → key_path ≢ []
          → ((a : List Text) (x : Text) (s : List Text)
              → section ∷ key_path ≡ a ++ x ∷ s
              → leaf_at t a ≡ none)
          → ((x : Text) (s : List Text) → leaf_at t (section ∷ (key_path ++ x ∷ s)) ≡ none)
          → (filled : Table (CoercedValue Json)) × (put_value t section key_path value ≡ ok filled)
            × ((p : List Text)
                → leaf_at filled p
                  ≡ (if path_eq p (section ∷ key_path) then some value else leaf_at t p))
      put_at section [] value keys above below = absurd (keys refl)
      put_at section (k ∷ ks) value keys above below =
          let (filled, e) = put-eq_some t section (k ∷ ks) value above in
          (filled, rw e refl, leaf_at-put t section (k ∷ ks) value e below)

  nested-Fits :
      (t filled : Table (CoercedValue Json)) (override other : ConfigOverride Json)
      → ((p : List Text)
          → leaf_at filled p
            ≡ (if path_eq p (path_of override) then some override.value else leaf_at t p))
      → ((x : Text) (s : List Text) → path_of other ≢ path_of override ++ x ∷ s)
      → ((x : Text) (s : List Text) → path_of override ≢ path_of other ++ x ∷ s)
      → Fits t other
      → Fits filled other
  unfolding Fits
  nested-Fits t filled override other at under over (above, below) = (
    λ a x s e. elim (Bool-cases (path_eq a (path_of override))) [
      | inl same ↦
          absurd (under x s (e ∙ ap (λ z. z ++ x ∷ s) (path_eq→eq a (path_of override) same)))
      | inr differs ↦ at a ∙ rw differs (above a x s e)
    ],
    λ x s. elim (Bool-cases (path_eq (path_of other ++ x ∷ s) (path_of override))) [
      | inl same ↦
          absurd (over x s (sym (path_eq→eq (path_of other ++ x ∷ s) (path_of override) same)))
      | inr differs ↦ at (path_of other ++ x ∷ s) ∙ rw differs (below x s)
    ],
  )

  -- Overrides that fit, none under another, are all nested, and the last value of each path is kept.
  nest_all-leaf_at :
      (t : Table (CoercedValue Json)) (overrides : List (ConfigOverride Json))
      → ((o : ConfigOverride Json) → In o overrides → o.key_path ≢ [])
      → NoneUnder overrides
      → ((o : ConfigOverride Json) → In o overrides → Fits t o)
      → (filled : Table (CoercedValue Json)) × (nest_all t overrides ≡ ok filled)
        × ((p : List Text) → leaf_at filled p ≡ or_else (last_value overrides p) (leaf_at t p))
  unfolding nest_all NoneUnder last_value
  nest_all-leaf_at t [] keys none_under fit = (t, refl, λ p. refl)
  nest_all-leaf_at t (o ∷ overrides) keys none_under fit =
      let (nested, e, at) = nest_override-leaf_at t o (keys o (inl refl)) (fit o (inl refl)) in
      let (filled, e1, at1) =
        nest_all-leaf_at nested overrides (λ p m. keys p (inr m))
          (λ a b i j. none_under a b (inr i) (inr j))
          (λ p m.
            nested-Fits t nested o p at (none_under o p (inl refl) (inr m))
              (none_under p o (inr m) (inl refl)) (fit p (inr m))) in
      (
        filled,
        rw e e1,
        λ p.
            at1 p
            ∙ ap (or_else (last_value overrides p)) (at p)
            ∙ or_else-if (last_value overrides p) (path_eq p (path_of o)) o.value (leaf_at t p),
      )

  leaf_at-empty : (a : List Text) → leaf_at {V = CoercedValue Json} empty a ≡ none
  unfolding leaf_at find
  leaf_at-empty [] = refl
  leaf_at-empty (k ∷ a) = refl

  empty-Fits : (o : ConfigOverride Json) → Fits empty o
  unfolding Fits
  empty-Fits o = (λ a x s e. leaf_at-empty a, λ x s. leaf_at-empty (path_of o ++ x ∷ s))

  or_else-none : (o : Option (CoercedValue Json)) → or_else o none ≡ o
  or_else-none none = refl
  or_else-none (some a) = refl

  module _ (loads : Text → Option Json) where
    parsed-keys :
        (raws : List Text) (overrides : List (ConfigOverride Json))
        → parse_all loads raws ≡ ok overrides
        → (o : ConfigOverride Json) → In o overrides
        → o.key_path ≢ []
    unfolding parse_all IsOverride
    parsed-keys [] overrides h o m = let e : [] ≡ overrides = cc in absurd (subst (In o) (sym e) m)
    parsed-keys (raw ∷ raws) overrides h o m =
        let (first, e, k) = first_step (parse_override loads raw) _ h in
        let (rest, e1, k1) = first_step (parse_all loads raws) _ k in
        let same : first ∷ rest ≡ overrides = cc in
        elim (subst (In o) (sym same) m) [
          | inl is_first ↦
              let (value, whole, coerced, lacks, full, keys) =
                (parse_override-eq_ok loads raw first).0 e in
              rw is_first keys
          | inr i ↦ parsed-keys raws rest e1 o i
        ]

    -- Overrides that parse and do not conflict are nested without an error, and what the nested
    -- mapping has at a path is the value of the last override with that path, if there is one.
    pub nest_overrides-last_value :
        (raws : List Text) (overrides : List (ConfigOverride Json))
        → parse_all loads raws ≡ ok overrides
        → refuse_conflicts (map dotted_key overrides) ≡ ok tt
        → (tree : Table (CoercedValue Json)) × (nest_overrides loads raws
            ≡ ok (tree, map dotted_key overrides))
          × ((p : List Text) → leaf_at tree p ≡ last_value overrides p)
    unfolding nest_overrides
    nest_overrides-last_value raws overrides parsed passed =
        let (tree, e, at) =
          nest_all-leaf_at empty overrides (parsed-keys raws overrides parsed)
            (refuse_conflicts-NoneUnder overrides passed) (λ o m. empty-Fits o) in
        (
          tree,
          rw (parsed, passed, e) refl,
          λ p.
              at p
              ∙ ap (or_else (last_value overrides p)) (leaf_at-empty p)
              ∙ or_else-none (last_value overrides p),
        )

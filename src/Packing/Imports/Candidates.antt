-- ===== src/Packing/Imports/Candidates.antt =====
-- Which names `iter_import_candidates` yields.
use pwshpy.Base.{
  ◌≡◌, ◌≢◌, refl, sym, ap, subst, ℕ, List, [], ◌∷◌, true, false, Option, some, arith, ◌⊎◌, inl, inr,
  flat_map, In, ok, Bool-cases, ◌↔◌,
}
use pwshpy.Text.{Text, text_eq, mem_text}
use pwshpy.Text.Laws.{text_eq→eq, text_eq_refl}
use pwshpy.Packing.Imports.{Node, node_candidates, unseen, from_tree, iter_import_candidates}

-- A text is in a list exactly if the code's test says so.
pub mem_text→In : (s : Text) (ts : List Text) → mem_text s ts ≡ true → In s ts
unfolding mem_text
mem_text→In s [] h = cc
mem_text→In s (t ∷ ts) h = elim (Bool-cases (text_eq s t)) [
  | inl e ↦ inl (text_eq→eq s t e)
  | inr ne ↦ inr (mem_text→In s ts (ground arith))
]

pub In→mem_text : (s : Text) (ts : List Text) → In s ts → mem_text s ts ≡ true
unfolding mem_text
In→mem_text s [] h = absurd h
In→mem_text s (t ∷ ts) (inl e) = rw (e, text_eq_refl t)
In→mem_text s (t ∷ ts) (inr h) = ground (arith, In→mem_text s ts h)

-- A name that is yielded is one of the names, is not empty, and was not seen before.
abbrev IsNew : Text → List Text → List Text → Type 0
IsNew s seen names = In s names × (¬ In s seen) × (s ≢ [])

unseen-empty : (seen names : List Text) → unseen seen ([] ∷ names) ≡ unseen seen names
unfolding unseen
unseen-empty seen names = refl

module _ (c : ℕ) (t : Text) (seen names : List Text) where
  unseen-old : mem_text (c ∷ t) seen ≡ true → unseen seen ((c ∷ t) ∷ names) ≡ unseen seen names
  unfolding unseen
  unseen-old h = ground arith

  unseen-new :
      mem_text (c ∷ t) seen ≡ false
      → unseen seen ((c ∷ t) ∷ names) ≡ (c ∷ t) ∷ unseen ((c ∷ t) ∷ seen) names
  unfolding unseen
  unseen-new h = ground arith

  not_seen : mem_text (c ∷ t) seen ≡ false → ¬ In (c ∷ t) seen
  not_seen new i = cc (In→mem_text (c ∷ t) seen i)

unseen-In : (seen names : List Text) (s : Text) → In s (unseen seen names) → IsNew s seen names
unseen-In seen [] s h = absurd (unfold unseen in h)
unseen-In seen ([] ∷ names) s h =
    let (i, n, e) = unseen-In seen names s (rw unseen-empty at h) in (inr i, n, e)
unseen-In seen ((c ∷ t) ∷ names) s h = elim (Bool-cases (mem_text (c ∷ t) seen)) [
  | inl old ↦
      let (i, n, e) = unseen-In seen names s (rw (unseen-old c t seen names old) at h) in
      (inr i, n, e)
  | inr new ↦ elim (rw (unseen-new c t seen names new) at h) [
    | inl e ↦ (inl e, λ i. not_seen c t seen names new (subst (λ z. In z seen) e i), λ z. cc)
    | inr later ↦
        let (i, n, e) = unseen-In ((c ∷ t) ∷ seen) names s later in (inr i, λ j. n (inr j), e)
  ]
]

In-unseen :
    (seen names : List Text) (s : Text) → s ≢ [] → In s names → In s seen ⊎ In s (unseen seen names)
In-unseen seen [] s ne h = absurd h
In-unseen seen ([] ∷ names) s ne (inl e) = absurd (ne e)
In-unseen seen ([] ∷ names) s ne (inr h) = rw unseen-empty (In-unseen seen names s ne h)
In-unseen seen ((c ∷ t) ∷ names) s ne h = elim (Bool-cases (mem_text (c ∷ t) seen)) [
  | inl old ↦ rw (unseen-old c t seen names old) (elim h [
    | inl e ↦ inl (subst (λ z. In z seen) (sym e) (mem_text→In (c ∷ t) seen old))
    | inr later ↦ In-unseen seen names s ne later
  ])
  | inr new ↦ rw (unseen-new c t seen names new) (elim h [
    | inl e ↦ inr (inl e)
    | inr later ↦ elim (In-unseen ((c ∷ t) ∷ seen) names s ne later) [
      | inl (inl e) ↦ inr (inl e)
      | inl (inr i) ↦ inl i
      | inr i ↦ inr (inr i)
    ]
  ])
]

-- No name stands twice.
abbrev pub Distinct : List Text → Type 0
Distinct [] = Unit
Distinct (s ∷ ts) = (¬ In s ts) × Distinct ts

unseen-Distinct : (seen names : List Text) → Distinct (unseen seen names)
unseen-Distinct seen [] = unfold unseen in tt
unseen-Distinct seen ([] ∷ names) = rw unseen-empty (unseen-Distinct seen names)
unseen-Distinct seen ((c ∷ t) ∷ names) = elim (Bool-cases (mem_text (c ∷ t) seen)) [
  | inl old ↦ rw (unseen-old c t seen names old) (unseen-Distinct seen names)
  | inr new ↦ rw (unseen-new c t seen names new) (
    λ i. (unseen-In ((c ∷ t) ∷ seen) names (c ∷ t) i).1 (inl refl),
    unseen-Distinct ((c ∷ t) ∷ seen) names,
  )
]

-- The names that the nodes of a tree contribute, one after another.
abbrev pub tree_candidates : List Text → List Node → List Text
tree_candidates package' nodes = flat_map (λ node. node_candidates node package') nodes

-- What is yielded for a source that parses: every name that a node contributes, but the empty one,
-- and each of them once.
pub iter_import_candidates-eq_ok :
    (parse : Text → Option (List Node)) (source : Text) (package' : List Text) (filename : Text)
    (nodes : List Node)
    → parse source ≡ some nodes
    → (names : List Text) × (iter_import_candidates parse source package' filename ≡ ok names)
      × Distinct names
      × ((s : Text) → In s names ↔ (In s (tree_candidates package' nodes) × (s ≢ [])))
iter_import_candidates-eq_ok parse source package' filename nodes h = (
  unseen [] (tree_candidates package' nodes),
  unfold iter_import_candidates in ap (from_tree filename package') h,
  unseen-Distinct [] _,
  λ s. (
    λ i. let (m, _, e) = unseen-In [] _ s i in (m, e),
    λ (m, e). elim (In-unseen [] _ s e m) [ inl i ↦ absurd i | inr i ↦ i ],
  ),
)

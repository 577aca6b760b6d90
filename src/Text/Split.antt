-- ===== src/Text/Split.antt =====
-- `split` and `join` on a separator.
use pwshpy.Base.{
  ℕ, false, ◌≡◌, refl, ap, List, [], ◌∷◌, ◌++◌, arith, ◌==◌, ==_iff, ==_refl, Bool-cases, inl, inr,
  All,
}
use pwshpy.Text.{Text, split, cons_head, join}
use pwshpy.Text.Laws.{Lacks}

-- A split has a first part.
pub split-eq_cons : (sep : ℕ) (s : Text) → (p : Text) × (ps : List Text) × (split sep s ≡ p ∷ ps)
unfolding split cons_head
split-eq_cons sep [] = ([], [], refl)
split-eq_cons sep (c ∷ s) =
    let (p, ps, e) = split-eq_cons sep s in
    elim (Bool-cases (c == sep)) [
      | inl at ↦ ([], split sep s, rw at)
      | inr other ↦ (c ∷ p, ps, rw (other, e))
    ]

join-cons_head :
    (c sep : ℕ) (p : Text) (ps : List Text)
    → join (sep ∷ []) ((c ∷ p) ∷ ps) ≡ c ∷ join (sep ∷ []) (p ∷ ps)
unfolding join
join-cons_head c sep p [] = refl
join-cons_head c sep p (q ∷ ps) = refl

join-cons_nil :
    (sep : ℕ) (p : Text) (ps : List Text)
    → join (sep ∷ []) ([] ∷ p ∷ ps) ≡ sep ∷ join (sep ∷ []) (p ∷ ps)
unfolding join
join-cons_nil sep p ps = refl

-- Joining the parts of a split gives the text back.
pub join-split : (sep : ℕ) (s : Text) → join (sep ∷ []) (split sep s) ≡ s
unfolding split cons_head
join-split sep [] = unfold join in refl
join-split sep (c ∷ s) =
    let (p, ps, e) = split-eq_cons sep s in
    elim (Bool-cases (c == sep)) [
      | inl at ↦ rw (at, e, join-cons_nil) (cc (rw e at (join-split sep s), (==_iff c sep).0 at))
      | inr other ↦ rw (other, e) (rw join-cons_head (ap (λ t. c ∷ t) (rw e at (join-split sep s))))
    ]

pub split-Lacks : (sep : ℕ) (s : Text) → All (Lacks sep) (split sep s)
unfolding split cons_head
split-Lacks sep [] = (tt, tt)
split-Lacks sep (c ∷ s) =
    let (p, ps, e) = split-eq_cons sep s in
    let ih : All (Lacks sep) (p ∷ ps) = rw e at (split-Lacks sep s) in
    elim (Bool-cases (c == sep)) [
      | inl at ↦ rw at (tt, split-Lacks sep s)
      | inr other ↦ rw (other, e) ((ground arith, ih.0), ih.1)
    ]

split_at_sep : (sep : ℕ) (t : Text) → split sep (sep ∷ t) ≡ [] ∷ split sep t
unfolding split
split_at_sep sep t = rw ==_refl

split_other :
    (c sep : ℕ) (t : Text) → (c == sep) ≡ false → split sep (c ∷ t) ≡ cons_head c (split sep t)
unfolding split
split_other c sep t h = ground arith

cons_head-append :
    (c : ℕ) (p : Text) (ps qs : List Text)
    → cons_head c ((p ∷ ps) ++ qs) ≡ cons_head c (p ∷ ps) ++ qs
unfolding cons_head
cons_head-append c p ps qs = refl

-- Two texts with the separator between them split into the parts of both.
pub split-append : (sep : ℕ) (s t : Text) → split sep (s ++ sep ∷ t) ≡ split sep s ++ split sep t
split-append sep [] t = rw split_at_sep (unfold split in refl)
split-append sep (c ∷ s) t = elim (Bool-cases (c == sep)) [
  | inl at ↦
      rw ((==_iff c sep).0 at, split_at_sep, split_at_sep) (ap (λ r. [] ∷ r) (split-append sep s t))
  | inr other ↦
      let (p, ps, e) = split-eq_cons sep s in
      rw (split_other c sep _ other, split_other c sep s other, split-append sep s t, e)
        (cons_head-append c p ps _)
]

pub split-one : (sep : ℕ) (s : Text) → Lacks sep s → split sep s ≡ s ∷ []
split-one sep [] h = unfold split in refl
split-one sep (c ∷ s) h = elim (Bool-cases (c == sep)) [
  | inl at ↦ absurd (h.0 ((==_iff c sep).0 at))
  | inr other ↦ rw (split_other c sep s other, split-one sep s h.1) (unfold cons_head in refl)
]

pub join-one : (sep : Text) (p : Text) → join sep (p ∷ []) ≡ p
unfolding join
join-one sep p = refl

pub join-more :
    (sep p q : Text) (ps : List Text) → join sep (p ∷ q ∷ ps) ≡ p ++ (sep ++ join sep (q ∷ ps))
unfolding join
join-more sep p q ps = refl

-- The parts of a join are the parts, if none of them holds the separator.
pub split-join :
    (sep : ℕ) (p : Text) (ps : List Text)
    → All (Lacks sep) (p ∷ ps)
    → split sep (join (sep ∷ []) (p ∷ ps)) ≡ p ∷ ps
split-join sep p [] h = rw join-one (split-one sep p h.0)
split-join sep p (q ∷ ps) h =
    rw (join-more, split-append, split-one sep p h.0, split-join sep q ps h.1)

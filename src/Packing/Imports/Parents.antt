-- ===== src/Packing/Imports/Parents.antt =====
-- The parent packages of a dotted name.
use pwshpy.Base.{
  ℕ, zero, suc, ◌+◌, ◌<◌, ◌≤◌, ◌≡◌, refl, ap, sym, subst, ◌∙◌, List, [], ◌∷◌, ◌++◌, arith, inl, inr,
  ◌⊎◌, length, length-append, length-take, take, In, All, ℕ_discrete, dec_le,
}
use pwshpy.Text.{Text, split}
use pwshpy.Text.Laws.{Lacks}
use pwshpy.Text.Split.{join-split, split-Lacks, split-eq_cons, split-join, split-append, split-one}
use pwshpy.Packing.Imports.{dot, dotted_name, prefixes, with_parents}

-- The name of the first `k` parts, for some `k` in a range.
abbrev pub IsPrefixName : Text → List Text → ℕ → ℕ → Type 0
IsPrefixName q parts index count =
    (k : ℕ) × (index ≤ k) × (k < index + count) × (q ≡ dotted_name (take k parts))

In-prefixes :
    (q : Text) (parts : List Text) (index count : ℕ)
    → In q (prefixes parts index count)
    → IsPrefixName q parts index count
unfolding prefixes
In-prefixes q parts index zero h = absurd h
In-prefixes q parts index (suc count) (inl e) = (index, omega arith, omega arith, e)
In-prefixes q parts index (suc count) (inr h) =
    let (k, low, high, e) = In-prefixes q parts (suc index) count h in
    (k, omega arith, omega arith, e)

prefixes-In :
    (parts : List Text) (k index count : ℕ)
    → index ≤ k
    → k < index + count
    → In (dotted_name (take k parts)) (prefixes parts index count)
unfolding prefixes
prefixes-In parts k index zero low high = absurd (omega arith)
prefixes-In parts k index (suc count) low high = elim (ℕ_discrete k index) [
  | yes e ↦ inl (ap (λ j. dotted_name (take j parts)) e)
  | no ne ↦ inr (prefixes-In parts k (suc index) count (omega arith) (omega arith))
]

take-all : (n : ℕ) (ps : List Text) → length ps ≤ n → take n ps ≡ ps
take-all zero [] h = refl
take-all zero (p ∷ ps) h = absurd (omega arith)
take-all (suc n) [] h = refl
take-all (suc n) (p ∷ ps) h = ap (λ r. p ∷ r) (take-all n ps (omega arith))

take-take : (j k : ℕ) (ps : List Text) → j ≤ k → take j (take k ps) ≡ take j ps
take-take zero k ps h = refl
take-take (suc j) zero ps h = absurd (omega arith)
take-take (suc j) (suc k) [] h = refl
take-take (suc j) (suc k) (p ∷ ps) h = ap (λ r. p ∷ r) (take-take j k ps (omega arith))

take-All : (k : ℕ) (ps : List Text) → All (Lacks dot) ps → All (Lacks dot) (take k ps)
take-All zero ps h = tt
take-All (suc k) [] h = tt
take-All (suc k) (p ∷ ps) h = (h.0, take-All k ps h.1)

take-append : (k : ℕ) (ps qs : List Text) → k ≤ length ps → take k (ps ++ qs) ≡ take k ps
take-append zero ps qs h = refl
take-append (suc k) [] qs h = absurd (omega arith)
take-append (suc k) (p ∷ ps) qs h = ap (λ r. p ∷ r) (take-append k ps qs (omega arith))

-- The parts of a prefix are the first parts.
split-prefix :
    (d : Text) (k : ℕ)
    → 1 ≤ k
    → split dot (dotted_name (take k (split dot d))) ≡ take k (split dot d)
split-prefix d zero h = absurd (omega arith)
split-prefix d (suc k) h =
    let (p, ps, e) = split-eq_cons dot d in
    let lacks : All (Lacks dot) (p ∷ ps) = subst (All (Lacks dot)) e (split-Lacks dot d) in
    rw e (split-join dot p (take k ps) (lacks.0, take-All k ps lacks.1))

pub with_parents-In :
    (q d : Text) → In q (with_parents d) → IsPrefixName q (split dot d) 1 (length (split dot d))
unfolding with_parents
with_parents-In q d h = In-prefixes q _ 1 _ h

In-with_parents :
    (d : Text) (k : ℕ)
    → 1 ≤ k
    → k ≤ length (split dot d)
    → In (dotted_name (take k (split dot d))) (with_parents d)
unfolding with_parents
In-with_parents d k low high = prefixes-In (split dot d) k 1 _ low (omega arith)

-- What stands before a dot of a name is one of its parents.
pub before_dot-In : (q rest : Text) → In q (with_parents (q ++ dot ∷ rest))
before_dot-In q rest =
    let n = length (split dot q) in
    let (p, ps, e) = split-eq_cons dot q in
    let some_part : 1 ≤ n = omega (arith, ap length e) in
    let parts = split-append dot q rest in
    let fits : n ≤ length (split dot (q ++ dot ∷ rest)) =
      omega (arith, ap length parts, length-append (split dot q) (split dot rest)) in
    let whole : dotted_name (take n (split dot (q ++ dot ∷ rest))) ≡ q =
      ap (λ l. dotted_name (take n l)) parts
      ∙ ap dotted_name (
          take-append n (split dot q) (split dot rest) (omega arith)
          ∙ take-all n (split dot q) (omega arith))
      ∙ join-split dot q in
    subst (λ r. In r (with_parents (q ++ dot ∷ rest))) whole
      (In-with_parents (q ++ dot ∷ rest) n some_part fits)

-- A name is among its own parents.
pub with_parents_self : (d : Text) → In d (with_parents d)
with_parents_self d =
    let n = length (split dot d) in
    let (p, ps, e) = split-eq_cons dot d in
    let some_part : 1 ≤ n = omega (arith, ap length e) in
    let whole : dotted_name (take n (split dot d)) ≡ d =
      ap dotted_name (take-all n (split dot d) (omega arith)) ∙ join-split dot d in
    subst (λ q. In q (with_parents d)) whole (In-with_parents d n some_part (omega arith))

-- The parents of a parent are parents.
pub with_parents_closed :
    (d p q : Text) → In p (with_parents d) → In q (with_parents p) → In q (with_parents d)
with_parents_closed d p q hp hq =
    let (k, low, high, e) = with_parents-In p d hp in
    let parts : split dot p ≡ take k (split dot d) = ap (split dot) e ∙ split-prefix d k low in
    let (j, low', high', e') = with_parents-In q p hq in
    let fits : length (split dot p) ≤ k =
      omega (arith, ap length parts, length-take k (split dot d)) in
    let same : dotted_name (take j (split dot d)) ≡ q =
      ap dotted_name (sym (take-take j k (split dot d) (omega arith)) ∙ ap (take j) (sym parts))
      ∙ sym e' in
    subst (λ r. In r (with_parents d)) same (In-with_parents d j low' (omega arith))

-- The parents of `base.name`, for a name of one part: those of the base, and the name itself.
pub with_parents-append :
    (base name q : Text)
    → Lacks dot name
    → In q (with_parents (base ++ dot ∷ name))
    → In q (with_parents base) ⊎ (q ≡ base ++ dot ∷ name)
with_parents-append base name q h i =
    let (k, low, high, e) = with_parents-In q (base ++ dot ∷ name) i in
    let parts : split dot (base ++ dot ∷ name) ≡ split dot base ++ name ∷ [] =
      split-append dot base name ∙ ap (λ r. split dot base ++ r) (split-one dot name h) in
    elim (dec_le k (length (split dot base))) [
      | yes old ↦
          let same : dotted_name (take k (split dot base)) ≡ q =
            ap dotted_name
              (sym (take-append k (split dot base) (name ∷ []) old) ∙ ap (take k) (sym parts))
            ∙ sym e in
          inl (subst (λ r. In r (with_parents base)) same (In-with_parents base k low old))
      | no new ↦
          let long : length (split dot (base ++ dot ∷ name)) ≤ k =
            omega (arith, ap length parts, length-append (split dot base) (name ∷ [])) in
          inr (e ∙ ap dotted_name (take-all k _ long) ∙ join-split dot (base ++ dot ∷ name))
    ]

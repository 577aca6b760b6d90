-- ===== src/Packing/Imports/Closed.antt =====
-- What is yielded holds the parent packages too.
use pwshpy.Base.{
  ℕ, zero, suc, ◌≤◌, ◌≡◌, ◌≢◌, refl, sym, subst, ◌∙◌, List, [], ◌∷◌, ◌++◌, Option, some,
  Option-cases, arith, Bool-cases, if◌then◌else◌, inl, inr, ◌⊎◌, In, In-append, In-left, In-right,
  In-flat_map, flat_map-In, All, All-at, flat_map, ok, take,
}
use pwshpy.Text.{Text, codes, text_eq}
use pwshpy.Text.Laws.{Lacks}
use pwshpy.Text.Split.{split-one, join-one}
use pwshpy.Packing.Imports.{
  Node, plain_import, import_from, other_node, dot, joined, alias_names, base_names, of_base,
  with_parents, resolve_from_base, node_candidates, iter_import_candidates, dotted_name,
}
use pwshpy.Packing.Imports.Parents.{
  before_dot-In, with_parents-In, with_parents_closed, with_parents-append,
}
use pwshpy.Packing.Imports.Candidates.{iter_import_candidates-eq_ok}

-- The only parent of a name of one part is itself.
with_parents-one : (name q : Text) → Lacks dot name → In q (with_parents name) → q ≡ name
with_parents-one name q h i =
    let (k, low, high, e) = with_parents-In q name i in first k low (rw (split-one dot name h) at e)
  where
    first : (k : ℕ) → 1 ≤ k → q ≡ dotted_name (take k (name ∷ [])) → q ≡ name
    first zero low e = absurd (omega arith)
    first (suc zero) low e = e ∙ join-one (dot ∷ []) name
    first (suc (suc k)) low e = e ∙ join-one (dot ∷ []) name

alias_step :
    (base name : Text) (names : List Text)
    → alias_names base (name ∷ names) ≡ (
        if text_eq name (codes "*")
        then alias_names base names
        else joined base name ∷ alias_names base names)
alias_step base name names = unfold alias_names in refl

alias-In :
    (base s : Text) (names : List Text)
    → In s (alias_names base names)
    → (name : Text) × In name names × (s ≡ joined base name)
alias-In base s [] h = absurd (unfold alias_names in h)
alias-In base s (name ∷ names) h = elim (Bool-cases (text_eq name (codes "*"))) [
  | inl star ↦ let (n, m, e) = alias-In base s names (rw (alias_step, star) at h) in (n, inr m, e)
  | inr no_star ↦ elim (rw (alias_step, no_star) at h) [
    | inl e ↦ (name, inl refl, e)
    | inr later ↦ let (n, m, e) = alias-In base s names later in (n, inr m, e)
  ]
]

-- Python's grammar has no dot in a name that `from … import` brings in.
abbrev pub IsGrammatical : Node → Type 0
IsGrammatical (plain_import names) = Unit
IsGrammatical (import_from level mod_name names) = All (Lacks dot) names
IsGrammatical other_node = Unit

-- The names of one `from … import`, whatever its base.
abbrev from_names : Text → List Text → List Text
from_names base names = base_names base ++ alias_names base names

base_cons : (c : ℕ) (b : Text) → base_names (c ∷ b) ≡ with_parents (c ∷ b)
base_cons c b = unfold base_names in refl

plain_step :
    (names package' : List Text)
    → node_candidates (plain_import names) package' ≡ flat_map with_parents names
plain_step names package' = unfold node_candidates in refl

from_step :
    (level : ℕ) (mod_name : Option Text) (names package' : List Text)
    → node_candidates (import_from level mod_name names) package'
      ≡ of_base names (resolve_from_base level mod_name package')
from_step level mod_name names package' = unfold node_candidates in refl

base_names-closed :
    (base s q : Text) → In s (base_names base) → In q (with_parents s) → In q (base_names base)
base_names-closed [] s q h i = absurd (unfold base_names in h)
base_names-closed (c ∷ b) s q h i = base_step (with_parents_closed (c ∷ b) s q (step_base h) i)
  where
    step_base : In s (base_names (c ∷ b)) → In s (with_parents (c ∷ b))
    step_base g = rw base_cons at g

    base_step : In q (with_parents (c ∷ b)) → In q (base_names (c ∷ b))
    base_step g = rw base_cons g

joined-closed :
    (base name q : Text)
    → Lacks dot name
    → In q (with_parents (joined base name))
    → In q (base_names base) ⊎ (q ≡ joined base name)
joined-closed [] name q h i = inr (with_parents-one name q h i)
joined-closed (c ∷ b) [] q h i = inl (rw base_cons i)
joined-closed (c ∷ b) (d ∷ n) q h i = elim (with_parents-append (c ∷ b) (d ∷ n) q h i) [
  | inl old ↦ inl (rw base_cons old)
  | inr new ↦ inr new
]

from_names-closed :
    (base : Text) (names : List Text) (s q : Text)
    → All (Lacks dot) names
    → In s (from_names base names)
    → In q (with_parents s)
    → In q (from_names base names)
from_names-closed base names s q g h i = elim (In-append s (base_names base) _ h) [
  | inl of_base ↦ In-left q _ _ (base_names-closed base s q of_base i)
  | inr of_alias ↦
      let (name, m, e) = alias-In base s names of_alias in
      let one : Lacks dot name = All-at (Lacks dot) name names g m in
      elim (joined-closed base name q one (subst (λ z. In q (with_parents z)) e i)) [
        | inl old ↦ In-left q _ _ old
        | inr new ↦
            In-right q (base_names base) _
              (subst (λ z. In z (alias_names base names)) (e ∙ sym new) of_alias)
      ]
]

node-closed :
    (node : Node) (package' : List Text) (s q : Text)
    → IsGrammatical node
    → In s (node_candidates node package')
    → In q (with_parents s)
    → In q (node_candidates node package')
node-closed (plain_import names) package' s q g h i =
    let (d, m, j) = In-flat_map with_parents s names (rw plain_step at h) in
    rw plain_step (flat_map-In with_parents q d names m (with_parents_closed d s q j i))
node-closed (import_from level mod_name names) package' s q g h i =
    elim (Option-cases (resolve_from_base level mod_name package')) [
      | inl escapes ↦ absurd (rw (from_step, escapes) at h)
      | inr (base, e) ↦
          rw (from_step, e) (from_names-closed base names s q g (rw (from_step, e) at h) i)
    ]
node-closed other_node package' s q g h i = absurd (unfold node_candidates in h)

iter_import_candidates-with_parents :
    (parse : Text → Option (List Node)) (source : Text) (package' : List Text) (filename : Text)
    (nodes : List Node) (names : List Text) (s q : Text)
    → parse source ≡ some nodes
    → All IsGrammatical nodes
    → iter_import_candidates parse source package' filename ≡ ok names
    → In s names
    → In q (with_parents s)
    → q ≢ []
    → In q names
iter_import_candidates-with_parents parse source package' filename nodes names s q h g r i j ne =
    let (names', r', _, all_of) =
      iter_import_candidates-eq_ok parse source package' filename nodes h in
    let same : names ≡ names' = cc (r, r') in
    let (m, _) = (all_of s).0 (subst (In s) same i) in
    let (node, at, k) = In-flat_map (λ n. node_candidates n package') s nodes m in
    let found = node-closed node package' s q (All-at IsGrammatical node nodes g at) k j in
    subst (In q) (sym same)
      ((all_of q).1 (flat_map-In (λ n. node_candidates n package') q node nodes at found, ne))

-- With a yielded name, every package above it is yielded: what stands before any of its dots, if that
-- is not empty. The source parses, and the names that its `from … import` brings in have no dot.
pub iter_import_candidates_closed :
    (parse : Text → Option (List Node)) (source : Text) (package' : List Text) (filename : Text)
    (nodes : List Node) (names : List Text) (q rest : Text)
    → parse source ≡ some nodes
    → All IsGrammatical nodes
    → iter_import_candidates parse source package' filename ≡ ok names
    → In (q ++ dot ∷ rest) names
    → q ≢ []
    → In q names
iter_import_candidates_closed parse source package' filename nodes names q rest h g r i ne =
    iter_import_candidates-with_parents parse source package' filename nodes names (q ++ dot ∷ rest)
      q h g r i (before_dot-In q rest) ne

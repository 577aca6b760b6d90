-- ===== src/Packing/Tests/Imports.antt =====
-- Import analysis at concrete inputs.
use pwshpy.Base.{◌≡◌, ◌≢◌, ◌↔◌, refl, List, [], ◌∷◌, Option, none, some, arith, inl, inr, In, ok}
use pwshpy.Text.{Text, codes}
use pwshpy.Packing.Imports.{
  Node, plain_import, import_from, other_node, iter_import_candidates, local, classify_import,
}
use pwshpy.Packing.Imports.Candidates.{Distinct, tree_candidates, iter_import_candidates-eq_ok}
use pwshpy.Packing.Imports.Closed.{iter_import_candidates_closed}

-- `import a.b` and `from c import d`
abbrev two_imports : List Node
two_imports =
    plain_import (codes "a.b" ∷ [])
    ∷ other_node
    ∷ import_from 0 (some (codes "c")) (codes "d" ∷ [])
    ∷ []

abbrev parse_two : Text → Option (List Node)
parse_two source = some two_imports

two_candidates :
    iter_import_candidates parse_two [] [] (codes "x.py")
    ≡ ok (codes "a" ∷ codes "a.b" ∷ codes "c" ∷ codes "c.d" ∷ [])
unfolding iter_import_candidates
two_candidates = refl

-- `from .. import top` in `a/b/x.py`, and one that climbs too far
relative_candidates :
    iter_import_candidates
      (λ s. some (import_from 2 none (codes "top" ∷ []) ∷ import_from 4 none (codes "y" ∷ []) ∷ []))
      []
      (codes "a" ∷ codes "b" ∷ [])
      (codes "x.py")
    ≡ ok (codes "a" ∷ codes "a.top" ∷ [])
unfolding iter_import_candidates
relative_candidates = refl

shadowed : classify_import (codes "json") (codes "json" ∷ []) (codes "json" ∷ []) ≡ local
unfolding classify_import
shadowed = refl

iter_import_candidates-eq_ok_example :
    (names : List Text) × (iter_import_candidates parse_two [] [] (codes "x.py") ≡ ok names)
    × Distinct names
    × ((s : Text) → In s names ↔ (In s (tree_candidates [] two_imports) × (s ≢ [])))
iter_import_candidates-eq_ok_example =
    iter_import_candidates-eq_ok parse_two [] [] (codes "x.py") two_imports refl

iter_import_candidates_closed_example :
    In (codes "a") (codes "a" ∷ codes "a.b" ∷ codes "c" ∷ codes "c.d" ∷ [])
iter_import_candidates_closed_example =
    iter_import_candidates_closed parse_two [] [] (codes "x.py") two_imports
      (codes "a" ∷ codes "a.b" ∷ codes "c" ∷ codes "c.d" ∷ []) (codes "a") (codes "b") refl
      (omega arith) two_candidates (inr (inl refl)) (λ e. cc e)

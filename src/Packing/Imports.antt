-- ===== src/Packing/Imports.antt =====
-- Import analysis: `iter_import_candidates`, `_node_candidates`, `_resolve_from_base`,
-- `_with_parents`, `classify_import` and `candidate_relative_paths` of
-- src/pwshpy/domain/packing.py.
pub mod Candidates
pub mod Parents
pub mod Closed
pub mod Paths
use pwshpy.Base.{
  ℕ, zero, suc, ◌+◌, ◌-◌, Bool, true, false, not, List, [], ◌∷◌, ◌++◌, map, Option, none, some, ltb,
  if◌then◌else◌, length, take, flat_map, Result, ok, err,
}
use pwshpy.Text.{Text, codes, text_eq, mem_text, split, join, replace}

-- A node of the syntax tree: `import a, b`, `from ..module import a, b`, and all others.
pub data Node : Type 0 where
  plain_import : List Text → Node
  import_from : ℕ → Option Text → List Text → Node
  other_node : Node

pub data ImportKind : Type 0 where
  local stdlib external : ImportKind

-- `PackError` of `iter_import_candidates`, with the file's name.
pub data ImportError : Type 0 where
  not_python : Text → ImportError

abbrev pub dot : ℕ
dot = b'.'

-- ".".join(parts)
abbrev pub dotted_name : List Text → Text
dotted_name parts = join (dot ∷ []) parts

-- `count` names, of the first `index`, `index + 1`, … parts
prefixes : List Text → ℕ → ℕ → List Text
prefixes parts index zero = []
prefixes parts index (suc count) = dotted_name (take index parts) ∷ prefixes parts (suc index) count

unfoldable pub with_parents : Text → List Text
unfolding prefixes split
with_parents dotted = let parts = split dot dotted in prefixes parts 1 (length parts)

-- `node.module` where it is a text that is not empty
abbrev pub module_parts : Option Text → List Text
module_parts none = []
module_parts (some []) = []
module_parts (some (c ∷ s)) = (c ∷ s) ∷ []

abbrev pub or_empty : Option Text → Text
or_empty none = []
or_empty (some m) = m

unfoldable pub resolve_from_base : ℕ → Option Text → List Text → Option Text
unfolding join
resolve_from_base zero mod_name package' = some (or_empty mod_name)
resolve_from_base (suc climb) mod_name package' =
    if ltb (length package') climb
    then none
    else some (dotted_name (take (length package' - climb) package' ++ module_parts mod_name))

-- ".".join(filter(None, (base, name)))
abbrev pub joined : Text → Text → Text
joined [] name = name
joined (c ∷ s) [] = c ∷ s
joined (c ∷ s) (d ∷ t) = c ∷ (s ++ dot ∷ d ∷ t)

unfoldable pub alias_names : Text → List Text → List Text
unfolding text_eq
alias_names base [] = []
alias_names base (name ∷ names) =
    let rest = alias_names base names in
    if text_eq name (codes "*") then rest else joined base name ∷ rest

-- `if base: yield from _with_parents(base)`
unfoldable pub base_names : Text → List Text
unfolding with_parents
base_names [] = []
base_names (c ∷ s) = with_parents (c ∷ s)

-- The rest of an `ImportFrom` node, for the base that `_resolve_from_base` found.
abbrev pub of_base : List Text → Option Text → List Text
of_base names none = []
of_base names (some base) = base_names base ++ alias_names base names

unfoldable pub node_candidates : Node → List Text → List Text
unfolding with_parents resolve_from_base base_names alias_names
node_candidates (plain_import names) package' = flat_map with_parents names
node_candidates (import_from level mod_name names) package' =
    of_base names (resolve_from_base level mod_name package')
node_candidates other_node package' = []

-- The names that are not empty and not seen before; `seen` is the set of the code.
unfoldable pub unseen : List Text → List Text → List Text
unseen seen [] = []
unseen seen ([] ∷ names) = unseen seen names
unseen seen ((c ∷ s) ∷ names) = elim (mem_text (c ∷ s) seen) [
  | true ↦ unseen seen names
  | false ↦ (c ∷ s) ∷ unseen ((c ∷ s) ∷ seen) names
]

abbrev pub from_tree : Text → List Text → Option (List Node) → Result ImportError (List Text)
from_tree filename package' none = err (not_python filename)
from_tree filename package' (some nodes) =
    ok (unseen [] (flat_map (λ node. node_candidates node package') nodes))

-- `parse` is `ast.parse` followed by `ast.walk`: the nodes of the tree, `none` on a SyntaxError.
unfoldable pub iter_import_candidates :
    (Text → Option (List Node)) → Text → List Text → Text → Result ImportError (List Text)
unfolding unseen mem_text node_candidates
iter_import_candidates parse source module_package filename =
    from_tree filename module_package (parse source)

-- `dotted.split(".", 1)[0]`
abbrev pub first_part : List Text → Text
first_part [] = []
first_part (p ∷ ps) = p

unfoldable pub classify_import : Text → List Text → List Text → ImportKind
unfolding mem_text split
classify_import dotted stdlib_names local_names =
    if mem_text dotted local_names
    then local
    else if mem_text (first_part (split dot dotted)) stdlib_names
    then stdlib
    else external

unfoldable pub candidate_relative_paths : Text → Text × Text
candidate_relative_paths dotted =
    let stem = replace dot (codes "/") dotted in (stem ++ codes ".py", stem ++ codes "/__init__.py")

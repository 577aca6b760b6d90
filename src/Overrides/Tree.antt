-- ===== src/Overrides/Tree.antt =====
-- Nested dictionaries, as `_nest_override` of src/pwshpy/adapters/config/overrides.py fills them.
pub mod Put
use pwshpy.Base.{Bool, true, false, ◌&&◌, List, [], ◌∷◌, Option, none, some, if◌then◌else◌}
use pwshpy.Text.{Text, text_eq}

mutual
  pub data Node (V : Type 0) : Type 0 where
    leaf : V → Node V
    table : Table V → Node V

  -- A dictionary in the order of its insertions.
  pub data Table (V : Type 0) : Type 0 where
    empty : Table V
    binding : Text → Node V → Table V → Table V

unfoldable pub path_eq : List Text → List Text → Bool
path_eq [] [] = true
path_eq [] (k ∷ ks) = false
path_eq (j ∷ js) [] = false
path_eq (j ∷ js) (k ∷ ks) = text_eq j k && path_eq js ks

module _ {V : Type 0} where
  -- `t.get(k)`
  unfoldable pub find : Text → Table V → Option (Node V)
  find k empty = none
  find k (binding key n t) = if text_eq k key then some n else find k t

  -- `t[k] = n`: a key keeps its place.
  unfoldable pub set : Text → Node V → Table V → Table V
  set k n empty = binding k n empty
  set k n (binding key m t) = if text_eq k key then binding key n t else binding key m (set k n t)

  -- The table that `setdefault(k, {})` returns; a value that is no table has no `setdefault`.
  abbrev pub sub_table : Option (Node V) → Option (Table V)
  sub_table none = some empty
  sub_table (some (table t)) = some t
  sub_table (some (leaf v)) = none

  abbrev pub bind_table : Option (Table V) → (Table V → Option (Table V)) → Option (Table V)
  bind_table none rest = none
  bind_table (some t) rest = rest t

  -- The value is set under a key and the further keys, with tables in between.
  unfoldable pub put : Table V → Text → List Text → V → Option (Table V)
  put t key [] v = some (set key (leaf v) t)
  put t key (k ∷ rest) v =
      bind_table (sub_table (find key t))
        (λ sub. bind_table (put sub k rest v) (λ filled. some (set key (table filled) t)))

  -- What a path of keys leads to, if that is a value.
  abbrev pub on_node : Option (Node V) → (Table V → Option V) → List Text → Option V
  on_node none below ks = none
  on_node (some (table t)) below ks = below t
  on_node (some (leaf v)) below [] = some v
  on_node (some (leaf v)) below (k ∷ ks) = none

  unfoldable pub leaf_at : Table V → List Text → Option V
  leaf_at t [] = none
  leaf_at t (k ∷ ks) = on_node (find k t) (λ sub. leaf_at sub ks) ks

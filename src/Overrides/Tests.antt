-- ===== src/Overrides/Tests.antt =====
-- Overrides as they stand on a command line; of JSON, only two numbers are read.
use pwshpy.Base.{ℕ, ◌≡◌, ◌↔◌, refl, List, [], ◌∷◌, Option, none, some, map, if◌then◌else◌, ok, err}
use pwshpy.Text.{Text, codes, text_eq, split, join, starts_with}
use pwshpy.Overrides.Tree.{leaf, table, Table, empty, binding, leaf_at, put, find, set}
use pwshpy.Overrides.{
  CoercedValue, raw_text, loaded, ConfigOverride, no_equals, no_dot, empty_component, conflicting,
  split_once, coerce_value, checked_parts, parse_override, parse_all, dotted_key, first_nested,
  refuse_each, refuse_conflicts, nest_override, nest_all, nest_overrides, apply_overrides,
}
use pwshpy.Overrides.Parsed.{IsOverride, parse_override-eq_ok}
use pwshpy.Overrides.Nested.{last_value, nest_overrides-last_value}

abbrev digits : Text → Option ℕ
digits raw =
    if text_eq raw (codes "1") then some 1 else if text_eq raw (codes "2") then some 2 else none

abbrev sample : List Text
sample = codes "a.b=1" ∷ codes "a.c.d=x=y" ∷ codes "a.b=2" ∷ []

abbrev first : ConfigOverride ℕ
first = record { section = codes "a"; key_path = codes "b" ∷ []; value = loaded 1 }

abbrev deeper : ConfigOverride ℕ
deeper = record {
  section = codes "a";
  key_path = codes "c" ∷ codes "d" ∷ [];
  value = raw_text (codes "x=y");
}

abbrev again : ConfigOverride ℕ
again = record { section = codes "a"; key_path = codes "b" ∷ []; value = loaded 2 }

parsed : parse_all digits sample ≡ ok (first ∷ deeper ∷ again ∷ [])
unfolding parse_all parse_override split_once split checked_parts coerce_value text_eq
parsed = refl

no_equals_sign : parse_override digits (codes "a.b") ≡ err (no_equals (codes "a.b"))
unfolding parse_override
no_equals_sign = refl

no_dot_before : parse_override digits (codes "a=b.c") ≡ err (no_dot (codes "a=b.c"))
unfolding parse_override split_once
no_dot_before = refl

no_component : parse_override digits (codes "a..b=1") ≡ err (empty_component (codes "a..b=1"))
unfolding parse_override split_once split checked_parts
no_component = refl

nested :
    nest_overrides digits sample
    ≡ ok (
      binding
          (codes "a")
          (table (
            binding (codes "b") (leaf (loaded 2)) (
              binding
                (codes "c")
                (table (binding (codes "d") (leaf (raw_text (codes "x=y"))) empty))
                empty)))
          empty,
      codes "a.b" ∷ codes "a.c.d" ∷ codes "a.b" ∷ [],
    )
unfolding nest_overrides parse_all parse_override split_once split checked_parts coerce_value
    text_eq dotted_key join refuse_each first_nested starts_with nest_all nest_override put find set
nested = refl

conflict :
    nest_overrides digits (codes "a.b.c=2" ∷ codes "a.b=1" ∷ [])
    ≡ err (conflicting (codes "a.b") (codes "a.b.c"))
unfolding nest_overrides parse_all parse_override split_once split checked_parts coerce_value
    text_eq dotted_key join refuse_each first_nested starts_with nest_all nest_override put find set
conflict = refl

unconflicting : refuse_conflicts (map dotted_key (first ∷ deeper ∷ again ∷ [])) ≡ ok tt
unfolding dotted_key join refuse_each first_nested starts_with
unconflicting = refl

unchanged : apply_overrides digits (λ (n : ℕ) t. 0) 7 [] ≡ ok 7
unfolding apply_overrides
unchanged = refl

parse_override-eq_ok_example :
    (parse_override digits (codes "a.b=1") ≡ ok first) ↔ IsOverride digits (codes "a.b=1") first
parse_override-eq_ok_example = parse_override-eq_ok digits (codes "a.b=1") first

nest_overrides-last_value_example :
    (tree : Table (CoercedValue ℕ)) × (nest_overrides digits sample
      ≡ ok (tree, map dotted_key (first ∷ deeper ∷ again ∷ [])))
    × ((p : List Text) → leaf_at tree p ≡ last_value (first ∷ deeper ∷ again ∷ []) p)
nest_overrides-last_value_example =
    nest_overrides-last_value digits sample (first ∷ deeper ∷ again ∷ []) parsed unconflicting

-- ===== src/Overrides.antt =====
-- Overrides of the configuration: src/pwshpy/adapters/config/overrides.py. Tree is the nested mapping
-- that they build, Parsed the proofs on one override, Conflicts
-- and Nested those on all of them.
pub mod Tree
pub mod Parsed
pub mod Conflicts
pub mod Nested
mod Tests
use pwshpy.Base.{
  ℕ, Bool, true, false, not, ◌≡◌, List, [], ◌∷◌, ◌++◌, Option, none, some, any, all, map, ◌==◌,
  if◌then◌else◌, Result, ok, err, ◌>>=◌, ◌>>◌,
}
use pwshpy.Text.{Text, codes, has_char, split, join, starts_with}
use pwshpy.Overrides.Tree.{Table, empty, put}

abbrev pub equals_sign : ℕ
equals_sign = b'='

abbrev pub dot : ℕ
dot = b'.'

-- `raw.split("=", maxsplit=1)`: what stands before the first separator, and behind it
unfoldable pub split_once : ℕ → Text → Text × Text
split_once sep [] = ([], [])
split_once sep (c ∷ s) =
    let (before, behind) = split_once sep s in if c == sep then ([], s) else (c ∷ before, behind)

-- `Json` is what `orjson.loads` returns.
pub data CoercedValue (Json : Type 0) : Type 0 where
  raw_text : Text → CoercedValue Json
  loaded : Json → CoercedValue Json

pub record ConfigOverride (Json : Type 0) : Type 0 where
  pub section : Text
  pub key_path : List Text
  pub value : CoercedValue Json

-- The `ValueError`s with the text that they show, and what the nesting raises where it would need a
-- table and finds a value, or a key and finds none.
pub data OverrideError : Type 0 where
  no_equals : Text → OverrideError
  no_dot : Text → OverrideError
  empty_section : Text → OverrideError
  empty_component : Text → OverrideError
  conflicting : Text → Text → OverrideError
  not_a_table : OverrideError
  no_key : OverrideError

abbrev pub is_empty : Text → Bool
is_empty [] = true
is_empty (c ∷ s) = false

-- `next((other for other in dotted_keys if other.startswith(f"{key}.")), None)`
unfoldable pub first_nested : Text → List Text → Option Text
first_nested key [] = none
first_nested key (other ∷ keys) =
    if starts_with (key ++ dot ∷ []) other then some other else first_nested key keys

abbrev pub refuse_nested : Text → Option Text → Result OverrideError (Unit {0})
refuse_nested key none = ok tt
refuse_nested key (some nested) = err (conflicting key nested)

-- `for key in dotted_keys`, of all the keys and those that are left
unfoldable pub refuse_each : List Text → List Text → Result OverrideError (Unit {0})
refuse_each dotted_keys [] = ok tt
refuse_each dotted_keys (key ∷ keys) =
    refuse_nested key (first_nested key dotted_keys) >> refuse_each dotted_keys keys

abbrev pub refuse_conflicts : List Text → Result OverrideError (Unit {0})
refuse_conflicts dotted_keys = refuse_each dotted_keys dotted_keys

module _ {Json : Type 0} where
  -- ".".join((override.section, *override.key_path))
  unfoldable pub dotted_key : ConfigOverride Json → Text
  dotted_key override = join (dot ∷ []) (override.section ∷ override.key_path)

  -- `loads` is `orjson.loads`, `none` where it raises.
  module _ (loads : Text → Option Json) where
    abbrev pub loaded_or_text : Text → Option Json → CoercedValue Json
    loaded_or_text raw none = raw_text raw
    loaded_or_text raw (some json) = loaded json

    unfoldable pub coerce_value : Text → CoercedValue Json
    coerce_value [] = raw_text []
    coerce_value (c ∷ s) = loaded_or_text (c ∷ s) (loads (c ∷ s))

    -- The checks of the parts; `str.split` returns one part at least.
    unfoldable pub checked_parts :
        Text → Text → List Text → Result OverrideError (ConfigOverride Json)
    checked_parts raw value [] = err (empty_section raw)
    checked_parts raw value (section ∷ key_parts) =
        if is_empty section
        then err (empty_section raw)
        else if not (all (λ part. not (is_empty part)) key_parts)
        then err (empty_component raw)
        else ok (record { section = section; key_path = key_parts; value = coerce_value value })

    unfoldable pub parse_override : Text → Result OverrideError (ConfigOverride Json)
    parse_override raw =
        if not (has_char equals_sign raw)
        then err (no_equals raw)
        else (let (path_part, value_str) = split_once equals_sign raw in
            if not (has_char dot path_part)
            then err (no_dot raw)
            else checked_parts raw value_str (split dot path_part))

    -- `[parse_override(raw) for raw in raw_overrides]`
    unfoldable pub parse_all : List Text → Result OverrideError (List (ConfigOverride Json))
    parse_all [] = ok []
    parse_all (raw ∷ raws) =
        parse_override raw >>= λ override. parse_all raws >>= λ overrides. ok (override ∷ overrides)

  abbrev pub or_not_a_table :
      Option (Table (CoercedValue Json)) → Result OverrideError (Table (CoercedValue Json))
  or_not_a_table none = err not_a_table
  or_not_a_table (some table) = ok table

  -- The value is put under the section and the keys.
  abbrev pub put_value :
      Table (CoercedValue Json)
      → Text
      → List Text
      → CoercedValue Json
      → Result OverrideError (Table (CoercedValue Json))
  put_value target section [] value = err no_key
  put_value target section (key ∷ keys) value =
      or_not_a_table (put target section (key ∷ keys) value)

  unfoldable pub nest_override :
      Table (CoercedValue Json)
      → ConfigOverride Json
      → Result OverrideError (Table (CoercedValue Json))
  nest_override target override = put_value target override.section override.key_path override.value

  unfoldable pub nest_all :
      Table (CoercedValue Json)
      → List (ConfigOverride Json)
      → Result OverrideError (Table (CoercedValue Json))
  nest_all target [] = ok target
  nest_all target (override ∷ overrides) =
      nest_override target override >>= λ nested. nest_all nested overrides

  module _ (loads : Text → Option Json) where
    unfoldable pub nest_overrides :
        List Text → Result OverrideError (Table (CoercedValue Json) × List Text)
    nest_overrides raw_overrides = parse_all loads raw_overrides >>= λ parsed.
        let dotted_keys = map dotted_key parsed in
        refuse_conflicts dotted_keys
        >> (nest_all empty parsed >>= λ overrides. ok (overrides, dotted_keys))

    -- `with_overrides` is the method of the configuration's library.
    unfoldable pub apply_overrides :
        {Config : Type 0}
        → (Config → Table (CoercedValue Json) → Config)
        → Config
        → List Text
        → Result OverrideError Config
    apply_overrides with_overrides config [] = ok config
    apply_overrides with_overrides config (raw ∷ raws) =
        nest_overrides (raw ∷ raws) >>= λ (overrides, keys). ok (with_overrides config overrides)

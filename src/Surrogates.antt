-- ===== src/Surrogates.antt =====
-- Texts that hold a byte that is not valid UTF-8, as a lone surrogate: src/pwshpy/domain/surrogates.py.
pub mod Decimal
pub mod Free
pub mod Names
pub mod Repaired
mod Tests
use pwshpy.Base.{
  ℕ, zero, suc, ◌+◌, ◌/◌, ◌%◌, Bool, true, false, not, ◌&&◌, List, [], ◌∷◌, ◌++◌, map, Option, none,
  some, any, all, length, ltb, leb, if◌then◌else◌,
}
use pwshpy.Text.{Text, codes, mem_text, text_eq}
use pwshpy.Surrogates.Decimal.{decimal}

-- `_SURROGATE`, of one character
abbrev pub is_surrogate : ℕ → Bool
is_surrogate c = leb 0xD800 c && leb c 0xDFFF

-- `REPLACEMENT`
abbrev pub replacement : ℕ
replacement = 0xFFFD

abbrev pub is_ascii : Text → Bool
is_ascii text = all (λ c. ltb c 128) text

-- A key: a text, or an object of another type.
pub data Key (Other : Type 0) : Type 0 where
  text_key : Text → Key Other
  other_key : Other → Key Other

unfoldable pub text_has_surrogate : Text → Bool
text_has_surrogate text = not (is_ascii text) && any is_surrogate text

unfoldable pub has_surrogate : {Other : Type 0} → Key Other → Bool
unfolding text_has_surrogate
has_surrogate (text_key text) = text_has_surrogate text
has_surrogate (other_key other) = false

abbrev pub replaced : ℕ → ℕ
replaced c = if is_surrogate c then replacement else c

unfoldable pub replace_surrogates : Text → Text
replace_surrogates text = map replaced text

-- f"{name}~{suffix}"
unfoldable pub suffixed : Text → ℕ → Text
suffixed name suffix = name ++ (codes "~" ++ decimal suffix)

-- `while candidate in taken`, on fuel
unfoldable pub free_from : ℕ → Text → ℕ → Text → List Text → Option Text
free_from zero name suffix candidate taken = none
free_from (suc fuel) name suffix candidate taken =
    let rest = free_from fuel name (suffix + 1) (suffixed name suffix) taken in
    if mem_text candidate taken then rest else some candidate

-- One round more than there are taken names.
unfoldable pub free_name : Text → List Text → Option Text
free_name name taken = free_from (suc (length taken)) name 2 name taken

-- The texts that are valid, in any order.
unfoldable pub valid_keys : {Other : Type 0} → List (Key Other) → List Text
unfolding text_has_surrogate
valid_keys [] = []
valid_keys (other_key other ∷ keys) = valid_keys keys
valid_keys (text_key text ∷ keys) =
    let rest = valid_keys keys in if text_has_surrogate text then rest else text ∷ rest

-- `renamed[key] = name`
unfoldable pub set_name : Text → Text → List (Text × Text) → List (Text × Text)
unfolding text_eq
set_name key name [] = (key, name) ∷ []
set_name key name ((k, n) ∷ renamed) =
    if text_eq key k then (key, name) ∷ renamed else (k, n) ∷ set_name key name renamed

-- The loop over the keys, `none` only where the search of a free name does not end.
abbrev pub with_name :
    Text
    → List (Text × Text)
    → List Text
    → Option Text
    → (List (Text × Text) → List Text → Option (List (Text × Text)))
    → Option (List (Text × Text))
with_name key renamed taken none rest = none
with_name key renamed taken (some name) rest = rest (set_name key name renamed) (name ∷ taken)

unfoldable pub rename :
    {Other : Type 0}
    → List (Key Other)
    → List (Text × Text)
    → List Text
    → Option (List (Text × Text))
unfolding set_name
rename [] renamed taken = some renamed
rename (other_key other ∷ keys) renamed taken = rename keys renamed taken
rename (text_key text ∷ keys) renamed taken =
    let skipped = rename keys renamed taken in
    let repaired =
      with_name text renamed taken (free_name (replace_surrogates text) taken)
        (λ renamed1 taken1. rename keys renamed1 taken1) in
    if text_has_surrogate text then repaired else skipped

unfoldable pub repaired_key_names :
    {Other : Type 0} → List (Key Other) → Option (List (Text × Text))
repaired_key_names keys = rename keys [] (valid_keys keys)

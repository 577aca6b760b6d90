-- ===== src/Packing/Substitute.antt =====
-- Filling a template in one pass: `_substitute` of src/pwshpy/domain/packing.py.
pub mod Pieces
use pwshpy.Base.{
  ℕ, zero, suc, ◌-◌, Bool, true, false, List, [], ◌∷◌, ◌++◌, Option, none, some, if◌then◌else◌,
  length,
}
use pwshpy.Text.{Text, starts_with}

-- `replacements`: its keys are the alternatives of the pattern, in their order.
abbrev pub Replacements : Type 0
Replacements = List (Text × Text)

abbrev pub at : ℕ
at = b'@'

-- A placeholder is `@@NAME@@`.
abbrev pub token_of : Text → Text
token_of name = at ∷ at ∷ (name ++ at ∷ at ∷ [])

-- Replacements written with the bare names.
abbrev pub replacements_of : List (Text × Text) → Replacements
replacements_of [] = []
replacements_of ((name, value) ∷ values) = (token_of name, value) ∷ replacements_of values

-- The first alternative that matches at the start of a text, with its replacement.
unfoldable pub match_token : Replacements → Text → Option (Text × Text)
match_token [] t = none
match_token ((token, value) ∷ reps) t =
    let later = match_token reps t in if starts_with token t then some (token, value) else later

-- `pattern.sub`: scan from left to right, and go on behind what matched. The number is how many
-- characters of a matched placeholder are still to be passed.
unfoldable pub substitute_from : Replacements → ℕ → Text → Text
substitute_from reps skip [] = []
substitute_from reps (suc k) (c ∷ t) = substitute_from reps k t
substitute_from reps zero (c ∷ t) = elim (match_token reps (c ∷ t)) [
  | none ↦ c ∷ substitute_from reps zero t
  | some (token, value) ↦ value ++ substitute_from reps (length token - 1) t
]

-- With no replacements the source's pattern matches everywhere and the look-up fails; both callers
-- give some.
unfoldable pub substitute : Text → Replacements → Text
substitute template replacements = substitute_from replacements zero template

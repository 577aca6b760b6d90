-- ===== src/Packing/PosixShell/Reader.antt =====
-- What `sh` makes of a command's words, described apart from the code that writes them: blanks
-- between words, the three ways of quoting, and a variable inside double quotes. Whatever else the
-- shell would interpret (operators, globs, expansions) has no reading here.
use pwshpy.Base.{
  ℕ, Bool, ◌||◌, ◌&&◌, List, [], ◌∷◌, ◌++◌, Option, none, some, leb, ◌==◌, if◌then◌else◌,
}
use pwshpy.Text.{Text, codes, has_char}

-- Where the shell stands: outside quotes, in single or double quotes, behind a backslash, or in
-- the name of a variable within double quotes.
pub data Mode : Type 0 where
  bare single double escaped : Mode
  variable : Text → Mode

abbrev pub is_blank : ℕ → Bool
is_blank c = c == b' ' || c == 9 || c == 10

abbrev pub is_special : ℕ → Bool
is_special c = has_char c (codes "|&;<>()$`*?[]#~={}!%")

abbrev pub is_name_char : ℕ → Bool
is_name_char c =
    leb b'A' c && leb c b'Z' || leb b'a' c && leb c b'z' || leb b'0' c && leb c b'9' || c == b'_'

-- The word so far, `none` before it has begun.
abbrev pub add : Option Text → Text → Option Text
add none t = some t
add (some w) t = some (w ++ t)

-- The next mode, the word so far, and a word that ends here.
abbrev pub Moved : Type 0
Moved = Option (Mode × Option Text × Option Text)

abbrev pub emit : Option Text → Option (List Text) → Option (List Text)
emit none words = words
emit (some w) none = none
emit (some w) (some ws) = some (w ∷ ws)

module _ (env : Text → Text) where
  unfoldable pub step : Mode → Option Text → ℕ → Moved
  step bare cur c =
      if is_blank c
      then some (bare, none, cur)
      else if c == b'\''
      then some (single, add cur [], none)
      else if c == b'"'
      then some (double, add cur [], none)
      else if c == b'\\'
      then some (escaped, cur, none)
      else if is_special c
      then none
      else some (bare, add cur (c ∷ []), none)
  step single cur c =
      if c == b'\'' then some (bare, cur, none) else some (single, add cur (c ∷ []), none)
  step double cur c =
      if c == b'"'
      then some (bare, cur, none)
      else if c == b'$'
      then some (variable [], cur, none)
      else if c == b'`' || c == b'\\'
      then none
      else some (double, add cur (c ∷ []), none)
  step escaped cur c = if c == 10 then none else some (bare, add cur (c ∷ []), none)
  step (variable name) cur c =
      if c == b'"'
      then some (bare, add cur (env name), none)
      else if is_name_char c
      then some (variable (name ++ c ∷ []), cur, none)
      else none

  unfoldable pub finish : Mode → Option Text → Option (List Text)
  finish bare none = some []
  finish bare (some w) = some (w ∷ [])
  finish _ cur = none

  unfoldable pub words_from : Mode → Option Text → Text → Option (List Text)
  unfolding step finish
  words_from m cur [] = finish m cur
  words_from m cur (c ∷ s) = elim (step m cur c) [
    | none ↦ none
    | some (m', cur', word) ↦ emit word (words_from m' cur' s)
  ]

  -- The words of a text, `none` for a text that is not read as plain words.
  unfoldable pub shell_words : Text → Option (List Text)
  unfolding words_from
  shell_words t = words_from bare none t

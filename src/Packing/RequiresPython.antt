-- ===== src/Packing/RequiresPython.antt =====
-- The `requires-python` of a PEP 723 block: `_REQUIRES_PYTHON_KEY`, `_REQUIRES_PYTHON_LINE`,
-- `_SPECIFIER_CHARACTERS`, `extract_requires_python` and `_requires_python_value` of
-- src/pwshpy/domain/packing.py.
pub mod Value
use pwshpy.Base.{
  ℕ, zero, suc, Bool, true, false, not, ◌&&◌, ◌||◌, List, [], ◌∷◌, ◌++◌, Option, none, some, leb,
  ◌==◌, if◌then◌else◌, all, any, drop, length, Result, ok, err,
}
use pwshpy.Base.Int.{ℤ, plus_clamped}
use pwshpy.Text.{Text, codes, starts_with, has_char, is_space, strip}
use pwshpy.Text.Lines.{splitlines}
use pwshpy.Text.Span.{take_while, drop_while}
use pwshpy.Packing.Toml.{scan_toml_line}

-- The `PackError`, with the line that its message shows.
pub data SpecifierError : Type 0 where
  not_one_quoted_string : Text → SpecifierError

-- `lines[1:-1]`
unfoldable pub without_last : List Text → List Text
without_last [] = []
without_last (l ∷ []) = []
without_last (l ∷ k ∷ ls) = l ∷ without_last (k ∷ ls)

abbrev pub inner_lines : List Text → List Text
inner_lines [] = []
inner_lines (l ∷ ls) = without_last ls

-- `(?=\s*=)`: what follows is an equals sign, behind white space
unfoldable pub equals_ahead : Text → Bool
equals_ahead t = starts_with (codes "=") (drop_while is_space t)

-- What follows a key that the line starts with.
abbrev pub behind_key : Text → Text → Option Text
behind_key key line =
    let rest = drop (length key) line in
    if starts_with key line && equals_ahead rest then some rest else none

abbrev pub or_else : Option Text → Option Text → Option Text
or_else none b = b
or_else (some t) b = some t

-- `_REQUIRES_PYTHON_KEY.match(line)`: the rest of the line behind the key
unfoldable pub requires_python_key : Text → Option Text
requires_python_key line = or_else (behind_key (codes "requires-python") line) (
    or_else (behind_key (codes "\"requires-python\"") line)
      (behind_key (codes "'requires-python'") line))

-- `"(?P<basic>[^"\\]*)"` or `'(?P<literal>[^']*)'` at the start of a text: the value and the rest
quoted_value : Text → Option (Text × Text)
quoted_value [] = none
quoted_value (q ∷ s) =
    let basic = take_while (λ c. not (c == b'"' || c == b'\\')) s in
    let literal = take_while (λ c. not (c == b'\'')) s in
    if q == b'"'
    then (if starts_with (codes "\"") (drop (length basic) s)
        then some (basic, drop (suc (length basic)) s)
        else none)
    else if q == b'\''
    then (if starts_with (codes "'") (drop (length literal) s)
        then some (literal, drop (suc (length literal)) s)
        else none)
    else none

-- `\s*(?:#.*)?` up to the end; `.` is any character but a line feed
line_ends : Text → Bool
line_ends [] = true
line_ends (c ∷ s) = c == b'#' && not (has_char b'\n' s)

abbrev value_if_ended : Option (Text × Text) → Option Text
value_if_ended none = none
value_if_ended (some (value, rest)) =
    if line_ends (drop_while is_space rest) then some value else none

abbrev value_behind : Option Text → Option Text
value_behind none = none
value_behind (some rest) =
    value_if_ended (quoted_value (drop_while is_space (drop 1 (drop_while is_space rest))))

-- `_REQUIRES_PYTHON_LINE.fullmatch(line)`: the value, `none` where the line does not match
unfoldable pub requires_python_line : Text → Option Text
unfolding quoted_value line_ends
requires_python_line line = value_behind (requires_python_key line)

-- `[0-9A-Za-z.,<>=!~*+ ]`
unfoldable pub is_specifier_char : ℕ → Bool
is_specifier_char c =
    leb b'0' c && leb c b'9'
    || leb b'A' c && leb c b'Z'
    || leb b'a' c && leb c b'z'
    || has_char c (codes ".,<>=!~*+ ")

abbrev pub checked_value : Text → Option Text → Result SpecifierError Text
checked_value line none = err (not_one_quoted_string (strip line))
checked_value line (some value) =
    if all is_specifier_char value
    then ok (strip value)
    else err (not_one_quoted_string (strip line))

unfoldable pub requires_python_value : Text → Result SpecifierError Text
requires_python_value line = checked_value line (requires_python_line line)

-- `(raw[2:] if raw.startswith("# ") else raw[1:])`
unfoldable pub uncommented : Text → Text
uncommented raw = if starts_with (codes "# ") raw then drop 2 raw else drop 1 raw

abbrev pub is_empty : Text → Bool
is_empty [] = true
is_empty (c ∷ s) = false

abbrev pub is_match : Option Text → Bool
is_match none = false
is_match (some t) = true

-- The loop over the lines of the block, with the arrays and the string that are open.
unfoldable pub requires_python_from : ℕ → Text → List Text → Result SpecifierError Text
requires_python_from depth open_string [] = ok []
requires_python_from depth open_string (raw ∷ raws) =
    let line = strip (uncommented raw) in
    let (change, still_open) = scan_toml_line line open_string in
    let rest = requires_python_from (plus_clamped depth change) still_open raws in
    if is_empty open_string && starts_with (codes "[") line && depth == 0
    then ok []
    else if is_empty open_string && is_match (requires_python_key line)
    then requires_python_value line
    else rest

unfoldable pub extract_requires_python : Text → Result SpecifierError Text
extract_requires_python metadata = requires_python_from 0 [] (inner_lines (splitlines metadata))

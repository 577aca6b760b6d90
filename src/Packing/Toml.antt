-- ===== src/Packing/Toml.antt =====
-- The line scanner for TOML: `_scan_toml_line`, `_TomlLineScan`, `_scan_toml_characters` and
-- `_string_end` of src/pwshpy/domain/packing.py.
pub mod StringEnd
pub mod Tokens
pub mod Scan
pub mod Open
use pwshpy.Base.{
  ℕ, zero, suc, ◌+◌, ◌-◌, Bool, true, false, ◌&&◌, ◌||◌, List, [], ◌∷◌, ◌++◌, leb, ltb, ◌==◌,
  if◌then◌else◌, length, drop, min, get_elem?, Option, none, some,
}
use pwshpy.Base.Int.{ℤ, pos, negsuc, ◌+ℤ◌}
use pwshpy.Text.{Text, starts_with}

-- `_MULTI_LINE_DELIMITER` and `_LONGEST_CLOSING_RUN`
abbrev pub multi_line_delimiter : ℕ
multi_line_delimiter = 3

abbrev pub longest_closing_run : ℕ
longest_closing_run = 5

-- `len(rest) - len(rest.lstrip(mark))`
unfoldable pub run_length : ℕ → Text → ℕ
run_length mark [] = 0
run_length mark (c ∷ s) = let more = run_length mark s in if c == mark then suc more else 0

-- The loop of `_string_end` over `line[index:]`. `index += n` goes one character on and passes
-- `n - 1` more, which is the second argument; `line_len` is `len(line)`.
unfoldable pub string_end_from : ℕ → Text → ℕ → ℕ → ℕ → Text → ℕ × Text
string_end_from mark quote line_len skip index [] = (line_len, quote)
string_end_from mark quote line_len (suc k) index (c ∷ s) =
    string_end_from mark quote line_len k (index + 1) s
string_end_from mark quote line_len zero index (c ∷ s) =
    let escape = mark == b'"' && c == b'\\' in
    let run = run_length mark (c ∷ s) in
    let rest =
      string_end_from mark quote line_len (if escape then 1 else if c == mark then run - 1 else 0)
        (index + 1) s in
    if escape
    then rest
    else if c == mark
    then (if length quote == 1
        then (index + 1, [])
        else if leb multi_line_delimiter run
        then (index + min run longest_closing_run, [])
        else rest)
    else rest

-- `quote[0]`, of a delimiter that is not empty, as in every call: of an empty one the source raises
-- an `IndexError`, and this is 0.
abbrev pub first_char : Text → ℕ
first_char [] = 0
first_char (c ∷ s) = c

unfoldable pub string_end : Text → ℕ → Text → ℕ × Text
unfolding string_end_from run_length
string_end line start quote =
    string_end_from (first_char quote) quote (length line) 0 start (drop start line)

pub record TomlLineScan : Type 0 where
  pub code : List ℕ
  pub comment : ℕ
  pub open_string : Text

-- The delimiter that a quote character opens: three of it, or one.
unfoldable pub delimiter : ℕ → Text → Text
unfolding starts_with
delimiter c rest =
    let multi_line = c ∷ c ∷ c ∷ [] in if starts_with multi_line rest then multi_line else c ∷ []

-- The loop of `_scan_toml_characters` over `line[index:]`, with the characters to pass as above.
-- `index, quote = _string_end(...)` passes the string's rest, up to its end.
unfoldable pub scan_from : Text → ℕ → ℕ → Text → List ℕ → Text → TomlLineScan
scan_from line skip index quote code [] = record {
  code = code;
  comment = length line;
  open_string = if length quote == multi_line_delimiter then quote else [];
}
scan_from line (suc k) index quote code (c ∷ s) = scan_from line k (index + 1) quote code s
scan_from line zero index [] code (c ∷ s) =
    let opens = c == b'"' || c == b'\'' in
    let quote = delimiter c (c ∷ s) in
    let rest =
      scan_from line (if opens then length quote - 1 else 0) (index + 1)
        (if opens then quote else []) (if opens then code else code ++ index ∷ []) s in
    if c == b'#' then record { code = code; comment = index; open_string = [] } else rest
scan_from line zero index (q ∷ quote) code (c ∷ s) =
    let (end, open_quote) = string_end line index (q ∷ quote) in
    scan_from line (end - index - 1) (index + 1) open_quote code s

unfoldable pub scan_toml_characters : Text → Text → TomlLineScan
unfolding scan_from string_end delimiter
scan_toml_characters line open_string = scan_from line 0 0 open_string [] line

-- `{"[": 1, "]": -1}.get(line[index], 0)`
abbrev pub bracket : Option ℕ → ℤ
bracket none = pos 0
bracket (some c) = if c == b'[' then pos 1 else if c == b']' then negsuc 0 else pos 0

unfoldable pub bracket_change : Text → List ℕ → ℤ
bracket_change line [] = pos 0
bracket_change line (index ∷ code) = bracket (get_elem? line index) +ℤ bracket_change line code

unfoldable pub scan_toml_line : Text → Text → ℤ × Text
unfolding scan_toml_characters bracket_change
scan_toml_line line open_string =
    let scan = scan_toml_characters line open_string in
    (bracket_change line scan.code, scan.open_string)

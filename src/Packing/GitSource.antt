-- ===== src/Packing/GitSource.antt =====
-- Whether a script has a git source: `_GIT_REQUIREMENT`, `_GIT_KEY`, `_SPELLING_ESCAPE`,
-- `has_git_source` and `_may_name_a_git_source` of src/pwshpy/domain/packing.py.
pub mod Key
pub mod Named
pub mod Detected
use pwshpy.Base.{
  ℕ, Bool, true, false, not, ◌&&◌, ◌||◌, List, [], ◌∷◌, ◌++◌, Option, none, some, ◌==◌,
  if◌then◌else◌, any, all, drop, take, length,
}
use pwshpy.Text.{Text, codes, starts_with, contains, has_char, is_space, lower}
use pwshpy.Text.Lines.{splitlines}
use pwshpy.Text.Span.{drop_while}
use pwshpy.Packing.Toml.{TomlLineScan, scan_toml_characters}
use pwshpy.Packing.RequiresPython.{uncommented, inner_lines}

abbrev pub git_requirement : Text
git_requirement = codes "git+"

-- `\s*=(?!=)` at the start of a text
unfoldable pub single_equals : Text → Bool
single_equals t =
    let rest = drop_while is_space t in
    starts_with (codes "=") rest && not (starts_with (codes "==") rest)

abbrev pub key_then_equals : Text → Text → Bool
key_then_equals key t = starts_with key t && single_equals (drop (length key) t)

-- `(?:git|"git"|'git')\s*=(?!=)` at the start of a text
unfoldable pub git_key_here : Text → Bool
git_key_here t =
    key_then_equals (codes "git") t
    || key_then_equals (codes "\"git\"") t
    || key_then_equals (codes "'git'") t

-- `[\s{,.]`
unfoldable pub before_key : ℕ → Bool
before_key c = is_space c || has_char c (codes "{,.")

-- A key behind a character that may stand before it.
unfoldable pub git_key_inside : Text → Bool
git_key_inside [] = false
git_key_inside (c ∷ t) = before_key c && git_key_here t || git_key_inside t

-- `_GIT_KEY.search(toml)`
unfoldable pub git_key : Text → Bool
git_key toml = git_key_here toml || git_key_inside toml

-- `[uUx]|\s*$` at the start of a text
unfoldable pub escape_ahead : Text → Bool
escape_ahead [] = true
escape_ahead (c ∷ t) = has_char c (codes "uUx") || all is_space (c ∷ t)

-- `_SPELLING_ESCAPE.search(toml)`
unfoldable pub spelling_escape : Text → Bool
spelling_escape [] = false
spelling_escape (c ∷ t) = c == b'\\' && escape_ahead t || spelling_escape t

unfoldable pub may_name_a_git_source : Text → Bool
may_name_a_git_source toml =
    contains git_requirement (lower toml) || (git_key toml || spelling_escape toml)

-- The loop over the lines of the block, with the string that is open.
unfoldable pub git_source_from : Text → List Text → Bool
git_source_from open_string [] = false
git_source_from open_string (raw ∷ raws) =
    let line = uncommented raw in
    let scan = scan_toml_characters line open_string in
    may_name_a_git_source (take scan.comment line) || git_source_from scan.open_string raws

unfoldable pub has_git_source : Text → List Text → Bool
has_git_source metadata with_packages =
    any (λ name. contains git_requirement (lower name)) with_packages
    || git_source_from [] (inner_lines (splitlines metadata))

-- ===== src/Packing/Tests/Toml.antt =====
-- Scanning TOML, and the settings that are read from it, at concrete inputs.
use pwshpy.Base.{List, ◌∷◌, ◌≡◌, ◌↔◌, ◌≤◌, true, false, [], refl, arith, length, ok, All}
use pwshpy.Text.{Text, codes, starts_with, contains, strip, is_space, lower, join, split}
use pwshpy.Text.Laws.{Lacks}
use pwshpy.Text.Lines.{splitlines}
use pwshpy.Text.Span.{take_while, drop_while}
use pwshpy.Base.Int.{pos, ◌+ℤ◌, plus_clamped}
use pwshpy.Packing.Toml.{string_end, scan_toml_characters, scan_toml_line}
use pwshpy.Packing.Toml.StringEnd.{IsStringEnd, string_end-IsStringEnd}
use pwshpy.Packing.Toml.Tokens.{double, single, character, escaped, Token, code, string, AreTokens}
use pwshpy.Packing.Toml.Scan.{scan_toml_characters-tokens_text}
use pwshpy.Packing.Toml.Open.{scan_toml_characters-triple}
use pwshpy.Packing.RequiresPython.{
  without_last, inner_lines, equals_ahead, requires_python_key, requires_python_line,
  is_specifier_char, requires_python_value, uncommented, requires_python_from,
  extract_requires_python,
}
use pwshpy.Packing.RequiresPython.Value.{IsSpecifier, extract_requires_python-IsSpecifier}
use pwshpy.Packing.GitSource.{
  single_equals, git_key_here, before_key, git_key_inside, git_key, escape_ahead, spelling_escape,
  may_name_a_git_source, git_source_from, has_git_source,
}
use pwshpy.Packing.GitSource.Detected.{NamesGitSource, has_git_source_iff}
use pwshpy.Packing.Chunks.{chunks, chunk_base64}
use pwshpy.Packing.Chunks.Lines.{flat, chunk_base64-eq_ok}

array_opens : scan_toml_line (codes "dependencies = [") [] ≡ (pos 1, [])
unfolding scan_toml_line ◌+ℤ◌
array_opens = refl

in_string : scan_toml_line (codes "x = \"[\"  # ]") [] ≡ (pos 0, [])
unfolding scan_toml_line ◌+ℤ◌
in_string = refl

still_open : (scan_toml_line (codes "x = '''[") []).1 ≡ codes "'''"
unfolding scan_toml_line ◌+ℤ◌
still_open = refl

abbrev block : Text
block =
    codes
      "# /// script\n# requires-python = '>=3.10'\n# dependencies = [\"p @ git+https://h\"]\n# ///\n"

read : extract_requires_python block ≡ ok (codes ">=3.10")
unfolding extract_requires_python requires_python_from without_last splitlines uncommented strip
    scan_toml_line requires_python_key requires_python_value requires_python_line equals_ahead
    is_specifier_char starts_with take_while drop_while is_space plus_clamped
read = refl

abbrev commented : Text
commented = codes "# /// script\n# dependencies = [\"rich\"]  # git+https://h/r\n# ///\n"

git_found : has_git_source block [] ≡ true
unfolding has_git_source git_source_from without_last splitlines uncommented scan_toml_characters
    may_name_a_git_source contains lower starts_with git_key git_key_here git_key_inside before_key
    single_equals spelling_escape escape_ahead is_space drop_while
git_found = refl

git_in_comment : has_git_source commented [] ≡ false
unfolding has_git_source git_source_from without_last splitlines uncommented scan_toml_characters
    may_name_a_git_source contains lower starts_with git_key git_key_here git_key_inside before_key
    single_equals spelling_escape escape_ahead is_space drop_while
git_in_comment = refl

wrapped : chunk_base64 (codes "abcde") 2 ≡ ok (codes "ab\ncd\ne")
unfolding chunk_base64 chunks join
wrapped = refl

abbrev quoted_line : Text
quoted_line = codes "x = 'a' # b"

string_end-IsStringEnd_example :
    IsStringEnd 5 (length quoted_line) (codes "'") (string_end quoted_line 5 (codes "'"))
string_end-IsStringEnd_example = string_end-IsStringEnd quoted_line 5 (codes "'") (omega arith)

-- `x=["#\"", '[', ""]`, and a comment.
abbrev bracketed : List Token
bracketed =
    code b'x'
    ∷ code b'='
    ∷ code b'['
    ∷ string double (character b'#' ∷ escaped b'"' ∷ [])
    ∷ code b','
    ∷ string single (character b'[' ∷ [])
    ∷ code b','
    ∷ string double []
    ∷ code b']'
    ∷ []

bracketed-AreTokens : AreTokens bracketed (codes "# ]")
bracketed-AreTokens = (
  omega arith,
  (
    omega arith,
    (
      omega arith,
      (
        (((omega arith, omega arith), (tt, tt)), λ e s. cc),
        (
          omega arith,
          (((omega arith, tt), λ e s. cc), (omega arith, ((tt, λ e s. cc), (omega arith, tt)))),
        ),
      ),
    ),
  ),
)

scan_toml_characters-tokens_text_example :
    scan_toml_characters (codes "x=[\"#\\\"\",'[',\"\"]# ]") []
    ≡ record { code = 0 ∷ 1 ∷ 2 ∷ 8 ∷ 12 ∷ 15 ∷ []; comment = 16; open_string = [] }
scan_toml_characters-tokens_text_example =
    scan_toml_characters-tokens_text bracketed (codes "# ]") bracketed-AreTokens refl

scan_toml_characters-triple_example :
    (scan_toml_characters (codes "# [") (codes "'''")
      ≡ record { code = []; comment = 3; open_string = codes "'''" })
    × (scan_toml_characters (codes "# [''']# [") (codes "'''")
        ≡ record { code = 6 ∷ []; comment = 7; open_string = [] })
scan_toml_characters-triple_example =
    scan_toml_characters-triple single (character b'#' ∷ character b' ' ∷ character b'[' ∷ [])
      (code b']' ∷ []) (codes "# [") (omega arith, (omega arith, (omega arith, tt)))
      (omega arith, tt) refl (λ s e. cc)

extract_requires_python-IsSpecifier_example : IsSpecifier (codes ">=3.10")
extract_requires_python-IsSpecifier_example =
    extract_requires_python-IsSpecifier block (codes ">=3.10") read

has_git_source_iff_example :
    (has_git_source block [] ≡ true) ↔ NamesGitSource (inner_lines (splitlines block)) []
has_git_source_iff_example = has_git_source_iff block []

abcde-Lacks : Lacks b'\n' (codes "abcde")
abcde-Lacks = ground arith

chunk_base64-eq_ok_example :
    (lines : Text) × (chunk_base64 (codes "abcde") 2 ≡ ok lines)
    × (flat (split b'\n' lines) ≡ codes "abcde")
    × All (λ line. length line ≤ 2) (split b'\n' lines)
chunk_base64-eq_ok_example = chunk_base64-eq_ok (codes "abcde") 2 (omega arith) abcde-Lacks

-- ===== src/Packing/Tests/Quoting.antt =====
-- Quoting and relative requirements at concrete inputs, most of them from the doctests of
-- src/pwshpy/domain/packing.py.
use pwshpy.Base.{◌≡◌, refl, true, List, [], ◌∷◌, ◌++◌, none, some}
use pwshpy.Text.{Text, codes}
use pwshpy.Packing.PowerShell.{
  is_powershell_quote, powershell_literal, powershell_string_array, unquote_powershell_literal,
}
use pwshpy.Packing.PowerShell.Reader.{ends_string, read_literal, ReadsArray}
use pwshpy.Packing.PowerShell.RoundTrip.{
  read_literal-powershell_literal, ReadsArray-powershell_string_array,
}
use pwshpy.Packing.PosixShell.{posix_shell_word, posix_shell_args}
use pwshpy.Packing.PosixShell.Reader.{shell_words}
use pwshpy.Packing.PosixShell.RoundTrip.{shell_words-posix_shell_args}
use pwshpy.Packing.Relative.{
  split_relative_requirement, is_relative_location, posix_anchored_args,
  powershell_relative_suffixes, prefix_name,
}
use pwshpy.Packing.Relative.Split.{split_relative_requirement-eq_some}
use pwshpy.Packing.Relative.Placed.{StandFor}
use pwshpy.Packing.Relative.Anchored.{
  StandForWords, AreTails, shell_words-posix_anchored_args, ReadsArray-powershell_relative_suffixes,
}

literal_its : powershell_literal (codes "it's") ≡ codes "'it''s'"
unfolding powershell_literal is_powershell_quote
literal_its = refl

unquote_its : unquote_powershell_literal (codes "it''s.py") ≡ codes "it's.py"
unfolding unquote_powershell_literal is_powershell_quote
unquote_its = refl

word_its : posix_shell_word (codes "it's") ≡ codes "'it'\\''s'"
unfolding posix_shell_word
word_its = refl

args_doctest :
    posix_shell_args (codes "--with" ∷ codes "httpx>=2" ∷ codes "it's" ∷ [])
    ≡ codes "'--with' 'httpx>=2' 'it'\\''s'"
unfolding posix_shell_args
args_doctest = refl

direct_reference :
    split_relative_requirement (codes "tool @ ../tool") ≡ some (codes "tool @ ", codes "../tool")
unfolding split_relative_requirement
direct_reference = refl

file_name :
    split_relative_requirement (codes "tool-1.0.tar.gz") ≡ some ([], codes "tool-1.0.tar.gz")
unfolding split_relative_requirement
file_name = refl

plain_requirement : split_relative_requirement (codes "rich>=13") ≡ none
unfolding split_relative_requirement
plain_requirement = refl

file_reference : split_relative_requirement (codes "file:./x") ≡ none
unfolding split_relative_requirement
file_reference = refl

anchored_doctest :
    posix_anchored_args (codes "--with" ∷ codes "./x.whl" ∷ [])
    ≡ codes "'--with' ''\"$PWSHPY_CALLER_PREFIX\"'./x.whl'"
unfolding posix_anchored_args
anchored_doctest = refl

suffixes_doctest :
    powershell_relative_suffixes
      (codes "--with" ∷ codes "tool @ ./x.whl" ∷ codes "--with" ∷ codes "rich" ∷ [])
    ≡ codes "'','./x.whl','',''"
unfolding powershell_relative_suffixes is_powershell_quote
suffixes_doctest = refl

read_literal-powershell_literal_example :
    read_literal (powershell_literal (codes "it's") ++ codes ", x")
    ≡ some (codes "it's", codes ", x")
unfolding ends_string
read_literal-powershell_literal_example =
    read_literal-powershell_literal (codes "it's") (codes ", x") refl

ReadsArray-powershell_string_array_example :
    ReadsArray (powershell_string_array (codes "a'" ∷ codes "," ∷ [])) (codes "a'" ∷ codes "," ∷ [])
    × ((ws : List Text)
        → ReadsArray (powershell_string_array (codes "a'" ∷ codes "," ∷ [])) ws
        → ws ≡ codes "a'" ∷ codes "," ∷ [])
ReadsArray-powershell_string_array_example =
    ReadsArray-powershell_string_array (codes "a'") (codes "," ∷ [])

abbrev home : Text → Text
home name = codes "/h/"

shell_words-posix_shell_args_example :
    shell_words home (posix_shell_args (codes "--with" ∷ codes "it's $x" ∷ []))
    ≡ some (codes "--with" ∷ codes "it's $x" ∷ [])
shell_words-posix_shell_args_example =
    shell_words-posix_shell_args home (codes "--with" ∷ codes "it's $x" ∷ [])

abbrev with_wheel : List Text
with_wheel = codes "--with" ∷ codes "t @ ./x.whl" ∷ []

shell_words-posix_anchored_args_example :
    (words : List Text) × (shell_words home (posix_anchored_args with_wheel) ≡ some words)
    × StandForWords (home prefix_name) with_wheel words
shell_words-posix_anchored_args_example = shell_words-posix_anchored_args home with_wheel

abbrev nowhere : Text → Text
nowhere name = []

ReadsArray-powershell_relative_suffixes_example :
    (tails : List Text) × ReadsArray (powershell_relative_suffixes with_wheel) tails
    × AreTails with_wheel tails
    × StandFor (λ t. []) (λ head location. location) [] with_wheel tails
ReadsArray-powershell_relative_suffixes_example =
    ReadsArray-powershell_relative_suffixes (codes "--with") (codes "t @ ./x.whl" ∷ [])

split_relative_requirement-eq_some_example :
    (codes "tool @ " ++ codes "../tool" ≡ codes "tool @ ../tool")
    × (is_relative_location (codes "../tool") ≡ true)
split_relative_requirement-eq_some_example =
    split_relative_requirement-eq_some (codes "tool @ ../tool") (codes "tool @ ") (codes "../tool")
      direct_reference

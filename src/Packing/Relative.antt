-- ===== src/Packing/Relative.antt =====
-- `--with` values that name a path relative to the working directory: `_NAMED_REFERENCE`,
-- `split_relative_requirement`, `_is_relative_location`, `_anchored_values`,
-- `_powershell_relative_suffixes` and `_posix_anchored_args` of src/pwshpy/domain/packing.py.
pub mod Split
pub mod Dotted
pub mod Placed
pub mod Anchored
use pwshpy.Base.{
  ℕ, Bool, true, false, not, ◌&&◌, ◌||◌, List, [], ◌∷◌, ◌++◌, map, Option, none, some, leb, ◌==◌,
  if◌then◌else◌, length, drop, any,
}
use pwshpy.Text.{
  Text, codes, text_eq, mem_text, starts_with, ends_with, contains, has_char, is_space, lstrip,
  strip, lower, join,
}
use pwshpy.Text.Span.{take_while, drop_while}
use pwshpy.Packing.PowerShell.{powershell_literal}
use pwshpy.Packing.PosixShell.{posix_shell_word}

is_alnum : ℕ → Bool
is_alnum c = leb b'A' c && leb c b'Z' || leb b'a' c && leb c b'z' || leb b'0' c && leb c b'9'

-- `[A-Za-z0-9._-]`
is_name_char : ℕ → Bool
unfolding is_alnum
is_name_char c = is_alnum c || has_char c (codes "._-")

ends_alnum : Text → Bool
unfolding is_alnum
ends_alnum [] = false
ends_alnum (c ∷ []) = is_alnum c
ends_alnum (c ∷ d ∷ s) = ends_alnum (d ∷ s)

-- `[A-Za-z0-9](?:[A-Za-z0-9._-]*[A-Za-z0-9])?`, held against a longest run of name characters:
-- what follows in the pattern is no name character, so no shorter run can match.
is_name : Text → Bool
unfolding ends_alnum
is_name [] = false
is_name (c ∷ s) = is_alnum c && ends_alnum (c ∷ s)

-- `(?:\[[^\]]*\])?`: the bracketed text, `none` where a bracket is not closed
extras : Text → Option Text
extras [] = some []
extras (c ∷ s) =
    let inside = take_while (λ d. not (d == b']')) s in
    if c == b'['
    then (if has_char b']' s then some (c ∷ (inside ++ b']' ∷ [])) else none)
    else some []

at_sign_behind : Text → Text → Option Text
unfolding is_space take_while
at_sign_behind blanks [] = none
at_sign_behind blanks (c ∷ s) =
    if c == b'@' then some (blanks ++ c ∷ take_while is_space s) else none

-- `\s*@\s*` at the start of a text
at_sign : Text → Option Text
unfolding at_sign_behind drop_while
at_sign s = at_sign_behind (take_while is_space s) (drop_while is_space s)

abbrev and_then : Option Text → (Text → Option Text) → Option Text
and_then none f = none
and_then (some t) f = f t

-- `_NAMED_REFERENCE.match(spec).group(0)`
unfoldable pub named_reference : Text → Option Text
unfolding is_name is_name_char extras at_sign
named_reference spec =
    let blanks = take_while is_space spec in
    let rest = drop_while is_space spec in
    let name = take_while is_name_char rest in
    let tail = drop_while is_name_char rest in
    let gap = take_while is_space tail in
    let behind = drop_while is_space tail in
    if is_name name
    then and_then (extras behind) (λ bracket.
      and_then (at_sign (drop (length bracket) behind))
        (λ at. some (blanks ++ (name ++ (gap ++ (bracket ++ at))))))
    else none

distribution_suffixes : List Text
distribution_suffixes =
    codes ".whl"
    ∷ codes ".tar.gz"
    ∷ codes ".zip"
    ∷ codes ".tar.bz2"
    ∷ codes ".tar.xz"
    ∷ codes ".tgz"
    ∷ []

-- `re.match(r"^[A-Za-z]:", token)`
has_drive : Text → Bool
has_drive [] = false
has_drive (c ∷ []) = false
has_drive (c ∷ d ∷ s) = (leb b'A' c && leb c b'Z' || leb b'a' c && leb c b'z') && d == b':'

-- `token[0] in "/\\~$"`, of a token that is not empty
starts_absolute : Text → Bool
starts_absolute [] = false
starts_absolute (c ∷ s) = has_char c (codes "/\\~$")

-- `re.split(r"[\s;]", location.strip(), maxsplit=1)[0]`
pub location_token : Text → Text
location_token location = take_while (λ c. not (is_space c || c == b';')) (strip location)

is_remote : Text → Bool
is_remote token = contains (codes "://") token || starts_with (codes "file:") (lower token)

is_path : Text → Bool
is_path token =
    has_char b'/' token
    || has_char b'\\' token
    || mem_text token (codes "." ∷ codes ".." ∷ [])
    || any (λ suffix. ends_with suffix (lower token)) distribution_suffixes

pub is_relative_token : Text → Bool
is_relative_token token =
    if text_eq token [] || is_remote token
    then false
    else if starts_absolute token || has_drive token
    then false
    else is_path token

unfoldable pub is_relative_location : Text → Bool
unfolding location_token is_space strip take_while is_relative_token is_remote is_path
    starts_absolute has_drive distribution_suffixes lower starts_with contains ends_with mem_text
is_relative_location location = is_relative_token (location_token location)

-- `named.group(0) if named and not spec.lstrip().startswith(".") else ""`
group_or_empty : Text → Option Text → Text
group_or_empty spec none = []
group_or_empty spec (some head) = if starts_with (codes ".") (lstrip spec) then [] else head

pub head_of : Text → Text
unfolding named_reference group_or_empty lstrip starts_with
head_of spec = group_or_empty spec (named_reference spec)

unfoldable pub split_relative_requirement : Text → Option (Text × Text)
unfolding head_of is_relative_location
split_relative_requirement spec =
    let head = head_of spec in
    let location = drop (length head) spec in
    if is_relative_location location then some (head, location) else none

pub anchored_from : Text → List Text → List (Text × Option (Text × Text))
unfolding split_relative_requirement
anchored_from previous [] = []
anchored_from previous (value ∷ values) =
    (value, if text_eq previous (codes "--with") then split_relative_requirement value else none)
    ∷ anchored_from value values

unfoldable pub anchored_values : List Text → List (Text × Option (Text × Text))
unfolding anchored_from
anchored_values values = anchored_from [] values

abbrev pub relative_suffix : Text × Option (Text × Text) → Text
relative_suffix (value, none) = []
relative_suffix (value, some (head, location)) = location

unfoldable pub powershell_relative_suffixes : List Text → Text
unfolding powershell_literal anchored_values join
powershell_relative_suffixes values =
    join (codes ",") (map (λ v. powershell_literal (relative_suffix v)) (anchored_values values))

-- `_POSIX_PREFIX_VARIABLE`
abbrev pub prefix_name : Text
prefix_name = codes "PWSHPY_CALLER_PREFIX"

posix_prefix_variable : Text
posix_prefix_variable = codes "\"$PWSHPY_CALLER_PREFIX\""

anchored_word : Text × Option (Text × Text) → Text
anchored_word (value, none) = posix_shell_word value
anchored_word (value, some (head, location)) =
    posix_shell_word head ++ (posix_prefix_variable ++ posix_shell_word location)

unfoldable pub posix_anchored_args : List Text → Text
unfolding anchored_word posix_prefix_variable posix_shell_word anchored_values join
posix_anchored_args values = join (codes " ") (map anchored_word (anchored_values values))

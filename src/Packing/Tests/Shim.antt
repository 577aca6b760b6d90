-- ===== src/Packing/Tests/Shim.antt =====
-- The shim's functions at concrete inputs.
use pwshpy.Base.{
  ℕ, ◌+◌, ◌-◌, ◌*◌, ◌/◌, ◌%◌, ◌&&◌, ◌==◌, leb, if◌then◌else◌, ◌≡◌, refl, false, List, [], ◌∷◌, ◌++◌,
  Option, some, none, arith, ok, err,
}
use pwshpy.Text.{Text, codes, text_eq, mem_text, starts_with, ends_with}
use pwshpy.Text.Span.{take_while, drop_while}
use pwshpy.Packing.Runner.{caller_env_var, argv_env_var, path_env_var, uv_path_env_var}
use pwshpy.Packing.Shim.{
  caller_env_names, caller_prefix, restore_the_callers_home, Environment, get, unsupported_encoding,
  entries_uv_added, restore_the_callers_path, argv_of, argv_from_environment,
}
use pwshpy.Packing.Shim.Argv.{handed_over, argv_from_environment-handed_over}
use pwshpy.Packing.Shim.Home.{get-restore_the_callers_home}
use pwshpy.Packing.Shim.Path.{get-restore_the_callers_path}

-- Base64 of ASCII texts: the number of a character, and the three characters of four.
abbrev sextet : ℕ → ℕ
sextet c =
    if leb b'A' c && leb c b'Z'
    then c - b'A'
    else if leb b'a' c && leb c b'z'
    then c - b'a' + 26
    else if leb b'0' c && leb c b'9'
    then c - b'0' + 52
    else if c == b'+'
    then 62
    else 63

abbrev triple : ℕ → ℕ → ℕ → ℕ → Text
triple a b c d =
    let first = sextet a * 4 + sextet b / 16 in
    let second = sextet b % 16 * 16 + sextet c / 4 in
    if c == b'='
    then first ∷ []
    else if d == b'='
    then first ∷ second ∷ []
    else first ∷ second ∷ (sextet c % 4 * 64 + sextet d) ∷ []

abbrev more : Text → Option Text → Option Text
more bytes none = none
more bytes (some rest) = some (bytes ++ rest)

abbrev b64decode : Text → Option Text
b64decode [] = some []
b64decode (a ∷ []) = none
b64decode (a ∷ b ∷ []) = none
b64decode (a ∷ b ∷ c ∷ []) = none
b64decode (a ∷ b ∷ c ∷ d ∷ s) = more (triple a b c d) (b64decode s)

abbrev arguments : List Text
arguments = codes "a|b" ∷ [] ∷ codes "--x" ∷ codes "y" ∷ []

abbrev pieces : List Text
pieces = codes "YXxi" ∷ [] ∷ codes "LS14" ∷ codes "eQ==" ∷ []

abbrev environment : Environment
environment =
    (codes "PATH", codes "/cache/bin:/usr/bin")
    ∷ (path_env_var, codes "/home/me/bin:/usr/bin")
    ∷ (uv_path_env_var, codes "/usr/bin")
    ∷ (argv_env_var, handed_over pieces)
    ∷ []

other_tag : argv_of b64decode [] (some (codes "v2|x")) ≡ err (unsupported_encoding (codes "v2"))
unfolding argv_of take_while drop_while text_eq
other_tag = refl

inside_an_entry : entries_uv_added b':' (codes "/x/usr/bin") (some (codes "/usr/bin")) ≡ []
unfolding entries_uv_added ends_with text_eq
inside_an_entry = refl

vector_held : get environment argv_env_var ≡ some (handed_over pieces)
unfolding get text_eq
vector_held = refl

argv_from_environment-handed_over_example :
    ((argv_from_environment b64decode [] environment).0 ≡ ok arguments)
    × (get (argv_from_environment b64decode [] environment).1 argv_env_var ≡ none)
argv_from_environment-handed_over_example =
    argv_from_environment-handed_over b64decode [] pieces arguments environment
      (refl, omega arith, (refl, tt, (refl, omega arith, (refl, omega arith, tt)))) vector_held

path_held : get environment path_env_var ≡ some (codes "/home/me/bin:/usr/bin")
unfolding get text_eq
path_held = refl

given_held : get environment uv_path_env_var ≡ some (codes "/usr/bin")
unfolding get text_eq
given_held = refl

current_held :
    get environment (codes "PATH") ≡ some ((codes "/cache/bin" ++ b':' ∷ []) ++ codes "/usr/bin")
unfolding get text_eq
current_held = refl

get-restore_the_callers_path_example :
    (get (restore_the_callers_path b':' environment) (codes "PATH")
      ≡ some ((codes "/cache/bin" ++ b':' ∷ []) ++ codes "/home/me/bin:/usr/bin"))
    × (get (restore_the_callers_path b':' environment) path_env_var ≡ none)
    × (get (restore_the_callers_path b':' environment) uv_path_env_var ≡ none)
get-restore_the_callers_path_example =
    get-restore_the_callers_path b':' environment (codes "/home/me/bin:/usr/bin") (codes "/usr/bin")
      (codes "/cache/bin") path_held given_held current_held

path_other : mem_text (codes "PATH") caller_env_names ≡ false
unfolding mem_text caller_env_names text_eq
path_other = refl

path_no_marker : text_eq caller_env_var (codes "PATH") ≡ false
unfolding text_eq
path_no_marker = refl

path_no_prefix : starts_with caller_prefix (codes "PATH") ≡ false
unfolding starts_with
path_no_prefix = refl

get-restore_the_callers_home_example :
    get
      (restore_the_callers_home (
        (caller_env_var, codes "HOME PATH")
        ∷ (codes "PWSHPY_PACK_CALLER_PATH", codes "/tmp")
        ∷ environment))
      (codes "PATH")
    ≡ get
        ((caller_env_var, codes "HOME PATH")
          ∷ (codes "PWSHPY_PACK_CALLER_PATH", codes "/tmp")
          ∷ environment)
        (codes "PATH")
get-restore_the_callers_home_example =
    get-restore_the_callers_home
      ((caller_env_var, codes "HOME PATH")
        ∷ (codes "PWSHPY_PACK_CALLER_PATH", codes "/tmp")
        ∷ environment)
      (codes "PATH") path_no_marker path_no_prefix path_other

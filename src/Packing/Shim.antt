-- ===== src/Packing/Shim.antt =====
-- The functions of the shim that runs a packed script: `SHIM_SOURCE` of src/pwshpy/domain/packing.py.
pub mod Argv
pub mod Home
pub mod Lookup
pub mod Path
use pwshpy.Base.{
  ℕ, ◌-◌, Bool, true, false, not, List, [], ◌∷◌, ◌++◌, Option, none, some, ◌==◌, if◌then◌else◌,
  take, drop, length, Result, ok, err,
}
use pwshpy.Text.{Text, codes, text_eq, starts_with, ends_with, split}
use pwshpy.Text.Span.{take_while, drop_while}
use pwshpy.Packing.Runner.{argv_env_var, caller_env_var, path_env_var, uv_path_env_var}

-- `os.environ`
abbrev pub Environment : Type 0
Environment = List (Text × Text)

-- `os.environ.get(name)`
unfoldable pub get : Environment → Text → Option Text
get [] name = none
get ((key, value) ∷ env) name =
    let later = get env name in if text_eq key name then some value else later

-- The environment without a name.
unfoldable pub without : Environment → Text → Environment
without [] name = []
without ((key, value) ∷ env) name =
    let later = without env name in if text_eq key name then later else (key, value) ∷ later

-- `os.environ.pop(name, None)`
abbrev pub pop : Environment → Text → Option Text × Environment
pop env name = (get env name, without env name)

-- `os.environ[name] = value`
abbrev pub put : Environment → Text → Text → Environment
put env name value = (name, value) ∷ without env name

-- `ARGV_ENCODING_TAG`
abbrev pub argv_encoding_tag : Text
argv_encoding_tag = codes "v1"

-- The argument's encoding is not known, or a piece is not the base64 of a text in UTF-8.
pub data ShimError : Type 0 where
  unsupported_encoding : Text → ShimError
  bad_piece : Text → ShimError

abbrev pub or_empty : Option Text → Text
or_empty none = []
or_empty (some t) = t

-- What `uv` put in front of the PATH that it was given; `pathsep` is `os.pathsep`.
abbrev pub added_if_whole : ℕ → Text → Text
added_if_whole pathsep added = if ends_with (pathsep ∷ []) added then added else []

unfoldable pub entries_uv_added : ℕ → Text → Option Text → Text
entries_uv_added pathsep current none = []
entries_uv_added pathsep current (some given) =
    if not (ends_with given current)
    then []
    else added_if_whole pathsep (take (length current - length given) current)

abbrev pub with_path : ℕ → Environment → Option Text → Option Text → Environment
with_path pathsep env none given = env
with_path pathsep env (some path) given =
    put env (codes "PATH")
      (entries_uv_added pathsep (or_empty (get env (codes "PATH"))) given ++ path)

unfoldable pub restore_the_callers_path : ℕ → Environment → Environment
restore_the_callers_path pathsep env =
    let (path, env1) = pop env path_env_var in
    let (given, env2) = pop env1 uv_path_env_var in with_path pathsep env2 path given

-- `CALLER_ENV_NAMES`
unfoldable pub caller_env_names : List Text
caller_env_names =
    codes "HOME"
    ∷ codes "XDG_CONFIG_HOME"
    ∷ codes "XDG_CACHE_HOME"
    ∷ codes "XDG_DATA_HOME"
    ∷ codes "XDG_STATE_HOME"
    ∷ codes "NETRC"
    ∷ codes "UV_CREDENTIALS_DIR"
    ∷ codes "TMPDIR"
    ∷ codes "TMP"
    ∷ codes "TEMP"
    ∷ []

-- `prefix`
abbrev pub caller_prefix : Text
caller_prefix = caller_env_var ++ codes "_"

-- The values that are handed over, by the names behind the prefix.
unfoldable pub handed_values : Text → Environment → Environment
handed_values prefix [] = []
handed_values prefix ((key, value) ∷ env) =
    let rest = handed_values prefix env in
    if starts_with prefix key then (drop (length prefix) key, value) ∷ rest else rest

-- The environment without the variables that hand a value over.
unfoldable pub without_prefix : Text → Environment → Environment
without_prefix prefix [] = []
without_prefix prefix ((key, value) ∷ env) =
    let rest = without_prefix prefix env in
    if starts_with prefix key then rest else (key, value) ∷ rest

abbrev pub put_or_pop : Environment → Text → Option Text → Environment
put_or_pop env name none = without env name
put_or_pop env name (some value) = put env name value

-- The loop over the names.
unfoldable pub give_back : List Text → Environment → Environment → Environment
give_back [] values env = env
give_back (name ∷ names) values env = give_back names values (put_or_pop env name (get values name))

abbrev pub home_given_back : Option Text → Environment → Environment → Environment
home_given_back none values env = env
home_given_back (some marker) values env = give_back caller_env_names values env

unfoldable pub restore_the_callers_home : Environment → Environment
restore_the_callers_home env =
    let (marker, env1) = pop env caller_env_var in
    home_given_back marker (handed_values caller_prefix env1) (without_prefix caller_prefix env1)

module _ (decode : Text → Option Text) where
  abbrev pub cons_piece :
      Text → Option Text → Result ShimError (List Text) → Result ShimError (List Text)
  cons_piece piece none rest = err (bad_piece piece)
  cons_piece piece (some t) (err e) = err e
  cons_piece piece (some t) (ok rest) = ok (t ∷ rest)

  -- `[... for piece in rest.split("|")]`
  unfoldable pub decode_pieces : List Text → Result ShimError (List Text)
  decode_pieces [] = ok []
  decode_pieces (piece ∷ pieces) = cons_piece piece (decode piece) (decode_pieces pieces)

  -- What stands behind the tag: no separator, or the pieces.
  abbrev pub decode_rest : Text → Result ShimError (List Text)
  decode_rest [] = ok []
  decode_rest (separator ∷ rest) = decode_pieces (split b'|' rest)

  -- The vector that the variable holds; `own` is `sys.argv[1:]`.
  unfoldable pub argv_of : List Text → Option Text → Result ShimError (List Text)
  argv_of own none = ok own
  argv_of own (some []) = ok []
  argv_of own (some (c ∷ s)) =
      let tag = take_while (λ d. not (d == b'|')) (c ∷ s) in
      if not (text_eq tag argv_encoding_tag)
      then err (unsupported_encoding tag)
      else decode_rest (drop_while (λ d. not (d == b'|')) (c ∷ s))

  unfoldable pub argv_from_environment :
      List Text → Environment → Result ShimError (List Text) × Environment
  argv_from_environment own env =
      let (blob, rest) = pop env argv_env_var in (argv_of own blob, rest)

-- ===== src/Packing/Runner.antt =====
-- Rendering a runner: `FileDigest`, `RunnerContent`, `render_runner`, `render_posix_runner` and
-- `_refuse_unrepresentable_names` of src/pwshpy/domain/packing.py.
pub mod Checks
pub mod Values
use pwshpy.Base.{
  Bool, true, false, not, ◌||◌, List, [], ◌∷◌, ◌++◌, map, if◌then◌else◌, Result, ok, err, ◌>>=◌,
  ◌>>◌,
}
use pwshpy.Text.{Text, codes, contains, has_char, join}
use pwshpy.Packing.PowerShell.{powershell_literal, powershell_string_array}
use pwshpy.Packing.PosixShell.{posix_shell_word, posix_shell_args}
use pwshpy.Packing.Relative.{powershell_relative_suffixes, posix_anchored_args}
use pwshpy.Packing.Substitute.{token_of, replacements_of, substitute}

pub record FileDigest : Type 0 where
  pub digest : Text
  pub path : Text

pub record RunnerContent : Type 0 where
  pub payload_b64 : Text
  pub payload_sha256 : Text
  pub entry : Text
  pub uv_args : List Text
  pub file_hashes : List FileDigest
  pub python_request : Text
  pub has_git_source : Bool

-- The reasons for a `PackError`, each with what its message names.
pub data RenderError : Type 0 where
  missing_placeholders : List Text → RenderError
  line_break_in_name : Text → RenderError
  comment_end_in_entry : Text → RenderError

abbrev pub shim_module : Text
shim_module = codes "__pwshpy_pack_main__.py"

abbrev pub argv_env_var : Text
argv_env_var = codes "PWSHPY_PACK_ARGV"

abbrev pub cwd_env_var : Text
cwd_env_var = codes "PWSHPY_PACK_CWD"

abbrev pub path_env_var : Text
path_env_var = codes "PWSHPY_PACK_PATH"

abbrev pub uv_path_env_var : Text
uv_path_env_var = codes "PWSHPY_PACK_UV_PATH"

abbrev pub caller_env_var : Text
caller_env_var = codes "PWSHPY_PACK_CALLER"

-- `_PLACEHOLDERS`, by name
unfoldable pub placeholders : List Text
placeholders =
    codes "PWSHPY_PAYLOAD_B64"
    ∷ codes "PWSHPY_PAYLOAD_SHA256"
    ∷ codes "PWSHPY_ENTRY"
    ∷ codes "PWSHPY_UV_ARGS"
    ∷ codes "PWSHPY_FILE_HASHES"
    ∷ codes "PWSHPY_SHIM"
    ∷ codes "PWSHPY_ARGV_ENV"
    ∷ codes "PWSHPY_CWD_ENV"
    ∷ codes "PWSHPY_UV_ARGS_RELATIVE"
    ∷ codes "PWSHPY_PYTHON_REQUEST"
    ∷ codes "PWSHPY_PATH_ENV"
    ∷ codes "PWSHPY_UV_PATH_ENV"
    ∷ codes "PWSHPY_GIT_SOURCE"
    ∷ codes "PWSHPY_CALLER_ENV"
    ∷ []

-- `_SH_PLACEHOLDERS`, by name
unfoldable pub sh_placeholders : List Text
sh_placeholders =
    codes "PWSHPY_PAYLOAD_B64"
    ∷ codes "PWSHPY_PAYLOAD_SHA256"
    ∷ codes "PWSHPY_ENTRY"
    ∷ codes "PWSHPY_UV_ARGS"
    ∷ codes "PWSHPY_FILE_HASHES"
    ∷ codes "PWSHPY_SHIM"
    ∷ codes "PWSHPY_ARGV_ENV"
    ∷ codes "PWSHPY_CWD_ENV"
    ∷ codes "PWSHPY_PATH_ENV"
    ∷ codes "PWSHPY_UV_PATH_ENV"
    ∷ codes "PWSHPY_UV_ARGS_ANCHORED"
    ∷ codes "PWSHPY_PYTHON_REQUEST"
    ∷ codes "PWSHPY_GIT_SOURCE"
    ∷ codes "PWSHPY_CALLER_ENV"
    ∷ []

-- `[token for token in tokens if token not in template]`
unfoldable pub missing : Text → List Text → List Text
missing template [] = []
missing template (name ∷ names) =
    let rest = missing template names in
    if contains (token_of name) template then rest else token_of name ∷ rest

-- The names that a runner spells: the entry and the path of each file.
abbrev pub packed_names : RunnerContent → List Text
packed_names content = content.entry ∷ map (λ fh. fh.path) content.file_hashes

unfoldable pub refuse_names : List Text → Result RenderError (Unit {0})
refuse_names [] = ok tt
refuse_names (name ∷ names) =
    let rest = refuse_names names in
    if has_char b'\n' name || has_char b'\r' name then err (line_break_in_name name) else rest

unfoldable pub refuse_unrepresentable_names : RunnerContent → Result RenderError (Unit {0})
unfolding refuse_names
refuse_unrepresentable_names content = refuse_names (packed_names content)

abbrev pub refuse_missing : List Text → Result RenderError (Unit {0})
refuse_missing [] = ok tt
refuse_missing (token ∷ tokens) = err (missing_placeholders (token ∷ tokens))

unfoldable pub refuse_comment_end : Text → Result RenderError (Unit {0})
refuse_comment_end entry =
    if contains (codes "#>") entry then err (comment_end_in_entry entry) else ok tt

abbrev pub bool_text : Bool → Text → Text → Text
bool_text b yes_text no_text = if b then yes_text else no_text

-- The replacements of the PowerShell runner, by name.
unfoldable pub powershell_values : RunnerContent → List (Text × Text)
powershell_values content =
    (codes "PWSHPY_PAYLOAD_B64", content.payload_b64)
    ∷ (codes "PWSHPY_PAYLOAD_SHA256", content.payload_sha256)
    ∷ (codes "PWSHPY_ENTRY", powershell_literal content.entry)
    ∷ (codes "PWSHPY_ENTRY_NAME", content.entry)
    ∷ (codes "PWSHPY_UV_ARGS", powershell_string_array content.uv_args)
    ∷ (
      codes "PWSHPY_FILE_HASHES",
      join (codes "\n") (map (λ fh. fh.digest ++ (codes " *" ++ fh.path)) content.file_hashes),
    )
    ∷ (codes "PWSHPY_SHIM", shim_module)
    ∷ (codes "PWSHPY_ARGV_ENV", argv_env_var)
    ∷ (codes "PWSHPY_CWD_ENV", cwd_env_var)
    ∷ (codes "PWSHPY_PATH_ENV", path_env_var)
    ∷ (codes "PWSHPY_UV_PATH_ENV", uv_path_env_var)
    ∷ (codes "PWSHPY_UV_ARGS_RELATIVE", powershell_relative_suffixes content.uv_args)
    ∷ (codes "PWSHPY_PYTHON_REQUEST", powershell_literal content.python_request)
    ∷ (codes "PWSHPY_GIT_SOURCE", bool_text content.has_git_source (codes "$true") (codes "$false"))
    ∷ (codes "PWSHPY_CALLER_ENV", caller_env_var)
    ∷ []

-- The file list of the POSIX runner: a line for each file.
unfoldable pub posix_hashes : List FileDigest → Text
posix_hashes files = join (codes "\n") (map (λ fh. fh.digest ++ (codes "  " ++ fh.path)) files)

-- The replacements of the POSIX runner, by name.
unfoldable pub posix_values : RunnerContent → List (Text × Text)
posix_values content =
    (codes "PWSHPY_PAYLOAD_B64", content.payload_b64)
    ∷ (codes "PWSHPY_PAYLOAD_SHA256", content.payload_sha256)
    ∷ (codes "PWSHPY_ENTRY", posix_shell_word content.entry)
    ∷ (codes "PWSHPY_ENTRY_NAME", content.entry)
    ∷ (codes "PWSHPY_UV_ARGS", posix_shell_word (posix_shell_args content.uv_args))
    ∷ (codes "PWSHPY_FILE_HASHES", posix_shell_word (posix_hashes content.file_hashes))
    ∷ (codes "PWSHPY_SHIM", shim_module)
    ∷ (codes "PWSHPY_ARGV_ENV", argv_env_var)
    ∷ (codes "PWSHPY_CWD_ENV", cwd_env_var)
    ∷ (codes "PWSHPY_PATH_ENV", path_env_var)
    ∷ (codes "PWSHPY_UV_PATH_ENV", uv_path_env_var)
    ∷ (codes "PWSHPY_UV_ARGS_ANCHORED", posix_shell_word (posix_anchored_args content.uv_args))
    ∷ (codes "PWSHPY_PYTHON_REQUEST", posix_shell_word content.python_request)
    ∷ (
      codes "PWSHPY_GIT_SOURCE",
      posix_shell_word (bool_text content.has_git_source (codes "1") (codes "0")),
    )
    ∷ (codes "PWSHPY_CALLER_ENV", caller_env_var)
    ∷ []

unfoldable pub render_runner : Text → RunnerContent → Result RenderError Text
render_runner template content = do
  refuse_missing (missing template placeholders)
  refuse_unrepresentable_names content
  refuse_comment_end content.entry
  ok (substitute template (replacements_of (powershell_values content)))

unfoldable pub render_posix_runner : Text → RunnerContent → Result RenderError Text
render_posix_runner template content = do
  refuse_missing (missing template sh_placeholders)
  refuse_unrepresentable_names content
  ok (substitute template (replacements_of (posix_values content)))

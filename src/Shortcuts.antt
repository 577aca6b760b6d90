-- ===== src/Shortcuts.antt =====
-- The inputs of a Windows shortcut: src/pwshpy/domain/shortcuts.py.
pub mod Fields
pub mod Stored
pub mod Specs
mod Tests
use pwshpy.Base.{
  ℕ, suc, Bool, true, false, not, ◌&&◌, ◌||◌, List, [], ◌∷◌, ◌++◌, Option, none, some, ◌==◌, leb,
  ltb, length, if◌then◌else◌, Result, ok, err, ◌>>=◌, ◌>>◌,
}
use pwshpy.Base.Int.{ℤ, pos, negsuc}
use pwshpy.Text.{Text, codes, has_char, lower, ends_with, text_eq}

abbrev pub max_path : ℕ
max_path = 259

abbrev pub max_field : ℕ
max_field = 260

abbrev pub max_arguments : ℕ
max_arguments = 32767

-- `-_INT32_MIN`, which is `_INT32_MAX + 1`
abbrev pub int32_limit : ℕ
int32_limit = 2147483648

-- An object that is passed in, as far as the checks tell it apart: the items of a sequence are texts
-- or other objects.
pub data Value : Type 0 where
  text_value : Text → Value
  bool_value : Bool → Value
  int_value : ℤ → Value
  none_value : Value
  sequence : List (Option Text) → Value
  other_value : Value

pub data Field : Type 0 where
  path target arguments working_directory icon icon_index description run_as_administrator : Field
  argument : ℕ → Field

-- The `ConfigurationError`s, with what their messages show.
pub data ShortcutError : Type 0 where
  not_a_text : Field → ShortcutError
  forbidden : Field → ℕ → ShortcutError
  too_long : Field → ℕ → ℕ → ShortcutError
  not_absolute : Field → ShortcutError
  no_lnk_file : ShortcutError
  single_text : ShortcutError
  not_a_sequence : ShortcutError
  line_too_long : ℕ → ShortcutError
  not_a_bool : ShortcutError
  not_an_int : ShortcutError
  out_of_range : ShortcutError

-- `_FORBIDDEN_CHARACTERS`: NUL, CR, LF
abbrev pub forbidden_characters : List ℕ
forbidden_characters = 0 ∷ 13 ∷ 10 ∷ []

-- The loop over the forbidden characters.
abbrev pub without_forbidden : Field → Text → List ℕ → Result ShortcutError Text
without_forbidden name text [] = ok text
without_forbidden name text (c ∷ cs) =
    let rest = without_forbidden name text cs in
    if has_char c text then err (forbidden name c) else rest

unfoldable pub text_of : Field → Text → Result ShortcutError Text
text_of name text = without_forbidden name text forbidden_characters

abbrev pub text : Field → Value → Result ShortcutError Text
text name (text_value t) = text_of name t
text name (bool_value b) = err (not_a_text name)
text name (int_value n) = err (not_a_text name)
text name none_value = err (not_a_text name)
text name (sequence items) = err (not_a_text name)
text name other_value = err (not_a_text name)

unfoldable pub bounded : Field → Text → ℕ → Result ShortcutError Text
bounded name value limit =
    if ltb limit (length value) then err (too_long name (length value) limit) else ok value

-- A character of an environment variable's name, `[^%=\\/]`.
abbrev pub in_name : ℕ → Bool
in_name c = not (c == b'%' || c == b'=' || c == b'\\' || c == b'/')

-- `[^%=\\/]*%\\`
unfoldable pub name_end : Text → Bool
name_end [] = false
name_end (c ∷ []) = false
name_end (c ∷ d ∷ s) =
    let rest = name_end (d ∷ s) in if c == b'%' then d == b'\\' else in_name c && rest

-- `_ENVIRONMENT_PREFIX.match`: `%[^%=\\/]+%\\`
unfoldable pub environment_prefix : Text → Bool
environment_prefix [] = false
environment_prefix (p ∷ []) = false
environment_prefix (p ∷ c ∷ s) = p == b'%' && in_name c && name_end s

-- `_icon_index`'s test, on both sides of zero
abbrev pub in_int32 : ℤ → Bool
in_int32 (pos n) = ltb n int32_limit
in_int32 (negsuc n) = ltb n int32_limit

unfoldable pub icon_index_of : Value → Result ShortcutError ℤ
icon_index_of (int_value n) = if in_int32 n then ok n else err out_of_range
icon_index_of (text_value t) = err not_an_int
icon_index_of (bool_value b) = err not_an_int
icon_index_of none_value = err not_an_int
icon_index_of (sequence items) = err not_an_int
icon_index_of other_value = err not_an_int

unfoldable pub flag : Value → Result ShortcutError Bool
flag (bool_value b) = ok b
flag (text_value t) = err not_a_bool
flag (int_value n) = err not_a_bool
flag none_value = err not_a_bool
flag (sequence items) = err not_a_bool
flag other_value = err not_a_bool

abbrev pub not_empty : Field → Value → Result ShortcutError (Option Text)
not_empty name value = text name value >>= λ t. bounded name t max_field >>= λ t. ok (some t)

unfoldable pub optional : Field → Value → Result ShortcutError (Option Text)
optional name none_value = ok none
optional name (text_value []) = ok none
optional name (text_value (c ∷ t)) = not_empty name (text_value (c ∷ t))
optional name (bool_value b) = not_empty name (bool_value b)
optional name (int_value n) = not_empty name (int_value n)
optional name (sequence items) = not_empty name (sequence items)
optional name other_value = not_empty name other_value

-- `_text(f"argument {position}", item) for position, item in enumerate(items, start=1)`
unfoldable pub argument_texts : ℕ → List (Option Text) → Result ShortcutError (List Text)
argument_texts position [] = ok []
argument_texts position (none ∷ items) = err (not_a_text (argument position))
argument_texts position (some t ∷ items) = text_of (argument position) t >>= λ first.
    argument_texts (suc position) items >>= λ rest. ok (first ∷ rest)

-- What the constructor is given, and what it keeps.
pub record Given : Type 0 where
  pub path : Value
  pub target : Value
  pub arguments : Value
  pub working_directory : Value
  pub icon : Value
  pub icon_index : Value
  pub description : Value
  pub run_as_administrator : Value

pub record ShortcutSpec : Type 0 where
  pub path : Text
  pub target : Text
  pub arguments : List Text
  pub working_directory : Option Text
  pub icon : Option Text
  pub icon_index : ℤ
  pub description : Option Text
  pub run_as_administrator : Bool

-- `PureWindowsPath(text).is_absolute()`, `PureWindowsPath(text).suffix` and `subprocess.list2cmdline`
module _ (is_absolute : Text → Bool) (suffix : Text → Text) (list2cmdline : List Text → Text) where
  abbrev pub is_lnk : Text → Bool
  is_lnk t = ends_with (codes ".lnk") (lower t) && text_eq (lower (suffix t)) (codes ".lnk")

  unfoldable pub lnk_path : Value → Result ShortcutError Text
  lnk_path value = text path value >>= λ t.
      if not (is_absolute t)
      then err (not_absolute path)
      else if not (is_lnk t)
      then err no_lnk_file
      else bounded path t max_path

  unfoldable pub target_of : Value → Result ShortcutError Text
  target_of value = text target value >>= λ t.
      if not (is_absolute t || environment_prefix t)
      then err (not_absolute target)
      else bounded target t max_path

  unfoldable pub line_within : List Text → Result ShortcutError (List Text)
  line_within argv =
      let joined = list2cmdline argv in
      if ltb max_arguments (length joined) then err (line_too_long (length joined)) else ok argv

  unfoldable pub arguments_of : Value → Result ShortcutError (List Text)
  arguments_of (text_value t) = err single_text
  arguments_of (sequence items) = argument_texts 1 items >>= λ argv. line_within argv
  arguments_of (bool_value b) = err not_a_sequence
  arguments_of (int_value n) = err not_a_sequence
  arguments_of none_value = err not_a_sequence
  arguments_of other_value = err not_a_sequence

  unfoldable pub new_spec : Given → Result ShortcutError ShortcutSpec
  new_spec given = lnk_path given.path >>= λ checked_path.
      target_of given.target >>= λ checked_target. arguments_of given.arguments >>= λ argv.
      optional working_directory given.working_directory >>= λ directory.
      optional icon given.icon >>= λ icon_file. icon_index_of given.icon_index >>= λ index.
      optional description given.description >>= λ comment.
      flag given.run_as_administrator >>= λ elevated. ok (record {
        path = checked_path;
        target = checked_target;
        arguments = argv;
        working_directory = directory;
        icon = icon_file;
        icon_index = index;
        description = comment;
        run_as_administrator = elevated;
      })

  unfoldable pub joined_arguments : ShortcutSpec → Text
  joined_arguments spec = list2cmdline spec.arguments

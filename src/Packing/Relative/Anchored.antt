-- ===== src/Packing/Relative/Anchored.antt =====
-- What the shell and PowerShell make of re-anchored arguments.
use pwshpy.Base.{
  ◌≡◌, refl, ap, List, [], ◌∷◌, ◌++◌, map, append_assoc, append-nil, Option, none, some,
  Option-cases, Bool-cases, inl, inr, if◌then◌else◌,
}
use pwshpy.Text.{Text, codes, join, text_eq}
use pwshpy.Packing.PosixShell.Reader.{bare, words_from, shell_words}
use pwshpy.Packing.PosixShell.RoundTrip.{bare-posix_shell_word, bare-space}
use pwshpy.Packing.PowerShell.{powershell_literal, powershell_string_array}
use pwshpy.Packing.PowerShell.Reader.{ReadsArray}
use pwshpy.Packing.PowerShell.RoundTrip.{ReadsArray-powershell_string_array}
use pwshpy.Packing.Relative.{
  split_relative_requirement, anchored_from, anchored_values, relative_suffix, prefix_name,
  posix_prefix_variable, anchored_word, posix_anchored_args, powershell_relative_suffixes,
}
use pwshpy.Packing.Relative.Placed.{StandFor, StandFor-anchored_from}
use pwshpy.Packing.Relative.Split.{split_relative_requirement-eq_some}

-- A value with a directory put in front of its relative path.
abbrev pub anchored : Text → Text × Option (Text × Text) → Text
anchored directory (value, none) = value
anchored directory (value, some (head, location)) = head ++ (directory ++ location)

join-more :
    (v w : Text × Option (Text × Text)) (vs : List (Text × Option (Text × Text)))
    → join (codes " ") (map anchored_word (v ∷ w ∷ vs))
      ≡ anchored_word v ++ b' ' ∷ join (codes " ") (map anchored_word (w ∷ vs))
unfolding join
join-more v w vs = refl

args_step :
    (values : List Text)
    → posix_anchored_args values ≡ join (codes " ") (map anchored_word (anchored_values values))
unfolding posix_anchored_args
args_step values = refl

module _ (env : Text → Text) where
  bare-posix_prefix_variable :
      (w s : Text)
      → words_from env bare (some w) (posix_prefix_variable ++ s)
        ≡ words_from env bare (some (w ++ env prefix_name)) s
  unfolding words_from posix_prefix_variable
  bare-posix_prefix_variable w s = rw append-nil

  bare-anchored_word :
      (v : Text × Option (Text × Text)) (s : Text)
      → words_from env bare none (anchored_word v ++ s)
        ≡ words_from env bare (some (anchored (env prefix_name) v)) s
  unfolding anchored_word
  bare-anchored_word (value, none) s = bare-posix_shell_word env value s none
  bare-anchored_word (value, some (head, location)) s = rw (
    append_assoc,
    bare-posix_shell_word env head _ none,
    append_assoc,
    bare-posix_prefix_variable,
    bare-posix_shell_word env location s (some (head ++ env prefix_name)),
    append_assoc,
  )

  bare-last : (w : Text) → words_from env bare (some w) [] ≡ some (w ∷ [])
  unfolding words_from
  bare-last w = refl

  bare-join :
      (v : Text × Option (Text × Text)) (vs : List (Text × Option (Text × Text)))
      → words_from env bare none (join (codes " ") (map anchored_word (v ∷ vs)))
        ≡ some (map (anchored (env prefix_name)) (v ∷ vs))
  bare-join v [] =
      unfold join in rw (← append-nil (anchored_word v)) (rw (bare-anchored_word v [], bare-last))
  bare-join v (w ∷ vs) = rw (join-more, bare-anchored_word v _, bare-space, bare-join w vs)

shell_words-anchored :
    (env : Text → Text) (values : List Text)
    → shell_words env (posix_anchored_args values)
      ≡ some (map (anchored (env prefix_name)) (anchored_values values))
unfolding shell_words anchored_values
shell_words-anchored env [] = unfold posix_anchored_args shell_words in refl
shell_words-anchored env (v ∷ vs) = rw args_step (bare-join env _ _)

-- A word as it was given, and one with a directory in front of its location.
abbrev pub StandForWords : Text → List Text → List Text → Type 0
StandForWords directory = StandFor (λ v. v) (λ head location. head ++ (directory ++ location)) []

-- The shell reads the re-anchored arguments as one word for each argument, in order: the value of
-- `--with` that is cut into a head and a relative location has the caller's prefix between the two,
-- whatever the prefix holds, and every other argument is itself. A value that starts with `./` or
-- `../` and has no colon has the prefix in front of it; one that starts with a slash, a backslash,
-- a tilde or a dollar sign has none.
pub shell_words-posix_anchored_args :
    (env : Text → Text) (values : List Text)
    → (words : List Text) × (shell_words env (posix_anchored_args values) ≡ some words)
      × StandForWords (env prefix_name) values words
unfolding anchored_values
shell_words-posix_anchored_args env values = (
  map (anchored (env prefix_name)) (anchored_values values),
  shell_words-anchored env values,
  StandFor-anchored_from (λ v. v) (λ head location. head ++ (env prefix_name ++ location))
      (anchored (env prefix_name)) (λ v. refl) (λ v head location. refl) [] values,
)

requirement : Text → Text → Option (Text × Text)
requirement previous v =
    if text_eq previous (codes "--with") then split_relative_requirement v else none

anchored-requirement : (previous v : Text) → anchored [] (v, requirement previous v) ≡ v
unfolding requirement
anchored-requirement previous v = elim (Bool-cases (text_eq previous (codes "--with"))) [
  | inr other ↦ rw other
  | inl value ↦ elim (Option-cases (split_relative_requirement v)) [
    | inl left_alone ↦ rw (value, left_alone)
    | inr ((head, location), e) ↦
        rw (value, e) (split_relative_requirement-eq_some v head location e).0
  ]
]

anchored_from-nil :
    (previous : Text) (values : List Text)
    → map (anchored []) (anchored_from previous values) ≡ values
unfolding anchored_from requirement
anchored_from-nil previous [] = refl
anchored_from-nil previous (v ∷ vs) = cc (anchored-requirement previous v, anchored_from-nil v vs)

-- With an empty prefix the shell reads the re-anchored arguments as exactly the given ones.
pub shell_words-posix_anchored_args-nil :
    (env : Text → Text) (values : List Text)
    → env prefix_name ≡ []
    → shell_words env (posix_anchored_args values) ≡ some values
unfolding anchored_values
shell_words-posix_anchored_args-nil env values h =
    rw (shell_words-anchored, h) (ap some (anchored_from-nil [] values))

-- Each tail ends its value.
abbrev pub AreTails : List Text → List Text → Type 0
AreTails [] [] = Unit
AreTails [] (t ∷ ts) = ⊥
AreTails (v ∷ vs) [] = ⊥
AreTails (v ∷ vs) (t ∷ ts) = ((head : Text) × (head ++ t ≡ v)) × AreTails vs ts

suffix-requirement :
    (previous v : Text) → (head : Text) × (head ++ relative_suffix (v, requirement previous v) ≡ v)
unfolding requirement
suffix-requirement previous v = elim (Bool-cases (text_eq previous (codes "--with"))) [
  | inr other ↦ rw other (v, append-nil v)
  | inl value ↦ elim (Option-cases (split_relative_requirement v)) [
    | inl left_alone ↦ rw (value, left_alone) (v, append-nil v)
    | inr ((head, location), e) ↦
        rw (value, e) (head, (split_relative_requirement-eq_some v head location e).0)
  ]
]

AreTails-anchored_from :
    (previous : Text) (values : List Text)
    → AreTails values (map relative_suffix (anchored_from previous values))
unfolding anchored_from requirement
AreTails-anchored_from previous [] = tt
AreTails-anchored_from previous (v ∷ vs) =
    (suffix-requirement previous v, AreTails-anchored_from v vs)

map-suffix :
    (vs : List (Text × Option (Text × Text)))
    → map (λ v. powershell_literal (relative_suffix v)) vs
      ≡ map powershell_literal (map relative_suffix vs)
map-suffix [] = refl
map-suffix (v ∷ vs) = ap (λ r. powershell_literal (relative_suffix v) ∷ r) (map-suffix vs)

suffixes_step :
    (values : List Text)
    → powershell_relative_suffixes values
      ≡ powershell_string_array (map relative_suffix (anchored_values values))
suffixes_step values =
    unfold powershell_relative_suffixes powershell_string_array in
    ap (join (codes ",")) (map-suffix (anchored_values values))

-- For one argument or more, PowerShell reads one text for each, in order, that ends it: for the value
-- of `--with` that is cut into a head and a relative location the location, for every other argument
-- the empty text. It is the whole value if that starts with `./` or `../` and has no colon, and empty
-- if it starts with a slash, a backslash, a tilde or a dollar sign.
pub ReadsArray-powershell_relative_suffixes :
    (v : Text) (vs : List Text)
    → (tails : List Text) × ReadsArray (powershell_relative_suffixes (v ∷ vs)) tails
      × AreTails (v ∷ vs) tails
      × StandFor (λ t. []) (λ head location. location) [] (v ∷ vs) tails
ReadsArray-powershell_relative_suffixes v vs = (
  map relative_suffix (anchored_values (v ∷ vs)),
  rw suffixes_step (unfold anchored_values in (ReadsArray-powershell_string_array _ _).0),
  unfold anchored_values in AreTails-anchored_from [] (v ∷ vs),
  unfold anchored_values in
      StandFor-anchored_from (λ t. []) (λ head location. location) relative_suffix (λ t. refl)
        (λ t head location. refl) [] (v ∷ vs),
)

-- ===== src/Packing/Relative/Split.antt =====
-- The two parts of a relative `--with` value.
use pwshpy.Base.{
  ℕ, Bool, true, false, not, ◌||◌, ◌≡◌, refl, ap, sym, ◌∙◌, [], ◌∷◌, ◌++◌, append_assoc, arith,
  Option, none, some, ◌==◌, ==_iff, if◌then◌else◌, Bool-cases, Option-cases, inl, inr, length, drop,
  drop-append,
}
use pwshpy.Text.{Text, codes, has_char, is_space, starts_with, text_eq, lstrip, rstrip}
use pwshpy.Text.Laws.{strip-ne_space}
use pwshpy.Text.Span.{
  take_while, drop_while, take_while-append-drop_while, take_while-stop, drop_while-stop,
  take_while-go,
}
use pwshpy.Packing.Relative.{
  extras, at_sign, at_sign_behind, named_reference, head_of, group_or_empty, is_relative_location,
  split_relative_requirement, is_name, is_name_char, location_token, is_relative_token, is_remote,
  starts_absolute, and_then,
}

abbrev IsPrefixOf : Text → Text → Type 0
IsPrefixOf p s = (r : Text) × (s ≡ p ++ r)

take_while-close :
    (b : ℕ) (s : Text)
    → has_char b s ≡ true
    → IsPrefixOf (take_while (λ d. not (d == b)) s ++ b ∷ []) s
unfolding take_while
take_while-close b [] h = cc
take_while-close b (c ∷ s) h = elim (Bool-cases (c == b)) [
  | inl at ↦ rw at (s, ap (λ x. x ∷ s) ((==_iff c b).0 at))
  | inr other ↦ let (r, e) = take_while-close b s (ground arith) in rw other (r, ap (λ t. c ∷ t) e)
]

-- What a pattern matched is a prefix of the text that it was held against.
extras-IsPrefixOf : (s : Text) {b : Text} → extras s ≡ some b → IsPrefixOf b s
unfolding extras
extras-IsPrefixOf [] {b} h = ([], cc)
extras-IsPrefixOf (c ∷ s) {b} h = elim (Bool-cases (c == b'[')) [
  | inr other ↦ (c ∷ s, ground arith)
  | inl bracket ↦ elim (Bool-cases (has_char b']' s)) [
    | inr unclosed ↦ absurd (ground arith)
    | inl closed ↦
        let (r, e) = take_while-close b']' s closed in
        let whole : c ∷ (take_while (λ d. not (d == b']')) s ++ b']' ∷ []) ≡ b = ground arith in
        (r, rw (← whole) (ap (λ t. c ∷ t) e))
  ]
]

at_sign_behind-IsPrefixOf :
    (blanks t : Text) {a : Text} → at_sign_behind blanks t ≡ some a → IsPrefixOf a (blanks ++ t)
unfolding at_sign_behind
at_sign_behind-IsPrefixOf blanks [] h = cc
at_sign_behind-IsPrefixOf blanks (c ∷ s) {a} h = elim (Bool-cases (c == b'@')) [
  | inr other ↦ absurd (cc (rw other at h))
  | inl at ↦
      let whole : blanks ++ c ∷ take_while is_space s ≡ a = cc (rw at at h) in
      (
        drop_while is_space s,
        rw (← whole, append_assoc)
            (ap (λ t. blanks ++ c ∷ t) (sym (take_while-append-drop_while is_space s))),
      )
]

at_sign-IsPrefixOf : (s : Text) {a : Text} → at_sign s ≡ some a → IsPrefixOf a s
at_sign-IsPrefixOf s {a} h = rw take_while-append-drop_while at (
    at_sign_behind-IsPrefixOf (take_while is_space s) (drop_while is_space s) {a = a}
      (unfold at_sign in h))

-- Two parts that are matched one behind the other.
IsPrefixOf-append :
    (p q s : Text) → IsPrefixOf p s → IsPrefixOf q (drop (length p) s) → IsPrefixOf (p ++ q) s
IsPrefixOf-append p q s (r, e) (r', e') =
    (r', rw (e, append_assoc) (ap (λ t. p ++ t) (rw (e, drop-append) at e')))

IsPrefixOf-take_while :
    (p : ℕ → Bool) (q s : Text) → IsPrefixOf q (drop_while p s) → IsPrefixOf (take_while p s ++ q) s
IsPrefixOf-take_while p q s (r, e) =
    (r, rw append_assoc (sym (take_while-append-drop_while p s) ∙ ap (λ t. take_while p s ++ t) e))

named_reference-IsPrefixOf :
    (spec : Text) {head : Text} → named_reference spec ≡ some head → IsPrefixOf head spec
named_reference-IsPrefixOf spec {head} h = parts (unfold named_reference in h)
  where
    rest : Text
    rest = drop_while is_space spec

    tail : Text
    tail = drop_while is_name_char rest

    behind : Text
    behind = drop_while is_space tail

    parts :
        (if is_name (take_while is_name_char rest)
            then and_then (extras behind) (λ bracket.
              and_then (at_sign (drop (length bracket) behind)) (λ at. some (
                take_while is_space spec
                ++ (take_while is_name_char rest
                    ++ (take_while is_space tail ++ (bracket ++ at))))))
            else none)
          ≡ some head
        → IsPrefixOf head spec
    parts g = elim (Bool-cases (is_name (take_while is_name_char rest))) [
      | inr no_name ↦ absurd (cc (rw no_name at g))
      | inl name ↦ elim (Option-cases (extras behind)) [
        | inl unclosed ↦ absurd (cc (rw (name, unclosed) at g))
        | inr (bracket, eb) ↦ elim (Option-cases (at_sign (drop (length bracket) behind))) [
          | inl no_at ↦ absurd (cc (rw (name, eb, no_at) at g))
          | inr (at, ea) ↦
              let whole : take_while is_space spec
                    ++ (take_while is_name_char rest
                        ++ (take_while is_space tail ++ (bracket ++ at)))
                  ≡ head =
                cc (rw (name, eb, ea) at g) in
              rw (← whole) (
                IsPrefixOf-take_while is_space _ spec (
                  IsPrefixOf-take_while is_name_char _ rest (
                    IsPrefixOf-take_while is_space _ tail (
                      IsPrefixOf-append bracket at behind (extras-IsPrefixOf behind eb)
                        (at_sign-IsPrefixOf _ ea)))))
        ]
      ]
    ]

group_or_empty-IsPrefixOf :
    (spec : Text) (m : Option Text)
    → ((head : Text) → m ≡ some head → IsPrefixOf head spec)
    → IsPrefixOf (group_or_empty spec m) spec
unfolding group_or_empty
group_or_empty-IsPrefixOf spec none h = (spec, refl)
group_or_empty-IsPrefixOf spec (some head) h =
    elim (Bool-cases (starts_with (codes ".") (lstrip spec))) [
      | inl dot ↦ rw dot (spec, refl)
      | inr no_dot ↦ rw no_dot (h head refl)
    ]

head_of-IsPrefixOf : (spec : Text) → IsPrefixOf (head_of spec) spec
head_of-IsPrefixOf spec =
    unfold head_of in
    group_or_empty-IsPrefixOf spec (named_reference spec) (λ head. named_reference-IsPrefixOf spec)

pub split_step :
    (spec : Text)
    → split_relative_requirement spec ≡ (
        if is_relative_location (drop (length (head_of spec)) spec)
        then some (head_of spec, drop (length (head_of spec)) spec)
        else none)
unfolding split_relative_requirement
split_step spec = refl

-- The two parts of a relative requirement are the requirement cut in two, and the second one is
-- what is read as a relative path.
pub split_relative_requirement-eq_some :
    (spec head location : Text)
    → split_relative_requirement spec ≡ some (head, location)
    → (head ++ location ≡ spec) × (is_relative_location location ≡ true)
split_relative_requirement-eq_some spec head location h =
    let (rest, e) = head_of-IsPrefixOf spec in
    let tail : drop (length (head_of spec)) spec ≡ rest =
      ap (drop (length (head_of spec))) e ∙ drop-append (head_of spec) rest in
    ground (arith, split_step spec)

abbrev IsAbsoluteStart : ℕ → Type 0
IsAbsoluteStart c = has_char c (codes "/\\~$") ≡ true

abbrev IsOther : ℕ → Type 0
IsOther c = (is_space c ≡ false) × (is_name_char c ≡ false) × (not (is_space c || c == b';') ≡ true)

IsAbsoluteStart-IsOther : (c : ℕ) → IsAbsoluteStart c → IsOther c
unfolding is_space is_name_char
IsAbsoluteStart-IsOther c h = elim (Bool-cases (c == b'/')) [
  | inl e ↦ rw ((==_iff c _).0 e) (refl, refl, refl)
  | inr n1 ↦ elim (Bool-cases (c == b'\\')) [
    | inl e ↦ rw ((==_iff c _).0 e) (refl, refl, refl)
    | inr n2 ↦ elim (Bool-cases (c == b'~')) [
      | inl e ↦ rw ((==_iff c _).0 e) (refl, refl, refl)
      | inr n3 ↦ rw ((==_iff c b'$').0 (ground arith)) (refl, refl, refl)
    ]
  ]
]

named_reference-eq_none : (c : ℕ) (s : Text) → IsOther c → named_reference (c ∷ s) ≡ none
named_reference-eq_none c s o =
    unfold named_reference in
    rw (drop_while-stop is_space c s o.0, take_while-stop is_name_char c s o.1)

starts_absolute-cons : (c : ℕ) (t : Text) → IsAbsoluteStart c → starts_absolute (c ∷ t) ≡ true
unfolding starts_absolute
starts_absolute-cons c t h = h

location_token-cons :
    (c : ℕ) (s : Text)
    → IsOther c
    → location_token (c ∷ s) ≡ c ∷ take_while (λ d. not (is_space d || d == b';')) (rstrip s)
location_token-cons c s o =
    unfold location_token in
    rw (strip-ne_space c s o.0)
      (take_while-go (λ d. not (is_space d || d == b';')) c (rstrip s) o.2)

pub relative_step : (l : Text) → is_relative_location l ≡ is_relative_token (location_token l)
unfolding is_relative_location
relative_step l = refl

is_relative_token-absolute :
    (c : ℕ) (t : Text) → IsAbsoluteStart c → is_relative_token (c ∷ t) ≡ false
unfolding is_relative_token
is_relative_token-absolute c t h =
    rw (starts_absolute-cons c t h) (elim (Bool-cases (text_eq (c ∷ t) [] || is_remote (c ∷ t))) [
      | inl remote ↦ rw remote
      | inr local ↦ rw local
    ])

-- A requirement that starts with a slash, a backslash, a tilde or a dollar sign is left as it is.
pub split_relative_requirement-eq_none :
    (c : ℕ) (s : Text)
    → has_char c (codes "/\\~$") ≡ true
    → split_relative_requirement (c ∷ s) ≡ none
split_relative_requirement-eq_none c s h =
    let o = IsAbsoluteStart-IsOther c h in
    let no_head : head_of (c ∷ s) ≡ [] =
      unfold head_of in ap (group_or_empty (c ∷ s)) (named_reference-eq_none c s o) in
    let no_path : is_relative_location (c ∷ s) ≡ false =
      rw (relative_step, location_token-cons c s o) (is_relative_token-absolute c _ h) in
    rw (split_step, no_head, no_path)

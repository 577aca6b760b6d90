-- ===== src/Packing/Relative/Dotted.antt =====
-- A `--with` value that is a path from the working directory or its parent.
use pwshpy.Base.{
  ℕ, Bool, true, false, not, ◌||◌, ◌≡◌, refl, ap, ◌∙◌, [], ◌∷◌, ◌++◌, arith, Option, none, some,
  ◌==◌, Bool-cases, inl, inr, ◌⊎◌,
}
use pwshpy.Text.{Text, codes, is_space, starts_with, contains, lstrip, rstrip, lower, text_eq}
use pwshpy.Text.Laws.{
  Lacks, starts_with-append, strip-ne_space, lstrip-ne_space, rstrip-ne_space, rstrip-All,
}
use pwshpy.Text.Span.{take_while, take_while-go}
use pwshpy.Packing.Relative.{
  named_reference, head_of, group_or_empty, is_relative_location, split_relative_requirement,
  location_token, is_relative_token, is_remote, is_path, starts_absolute, has_drive,
}
use pwshpy.Packing.Relative.Split.{split_step, relative_step}

-- The text starts with `./` or `../` and has no colon.
abbrev pub IsDotted : Text → Type 0
IsDotted v =
    ((rest : Text) × (v ≡ codes "./" ++ rest) × Lacks b':' rest)
    ⊎ ((rest : Text) × (v ≡ codes "../" ++ rest) × Lacks b':' rest)

abbrev in_token : ℕ → Bool
in_token d = not (is_space d || d == b';')

take_while-Lacks : (p : ℕ → Bool) (t : Text) → Lacks b':' t → Lacks b':' (take_while p t)
unfolding take_while
take_while-Lacks p [] h = tt
take_while-Lacks p (c ∷ t) (h, hs) = elim (Bool-cases (p c)) [
  | inl pass ↦ rw pass (h, take_while-Lacks p t hs)
  | inr stop ↦ rw stop tt
]

contains-Lacks : (t : Text) → Lacks b':' t → contains (codes "://") t ≡ false
unfolding contains starts_with
contains-Lacks [] h = refl
contains-Lacks (c ∷ t) (h, hs) = ground (arith, contains-Lacks t hs)

dot_first : (s : Text) → starts_with (codes ".") (lstrip (b'.' ∷ s)) ≡ true
dot_first s =
    rw (lstrip-ne_space b'.' s (unfold is_space in refl)) (starts_with-append (codes ".") s)

group_or_empty-dot : (s : Text) (m : Option Text) → group_or_empty (b'.' ∷ s) m ≡ []
unfolding group_or_empty
group_or_empty-dot s none = refl
group_or_empty-dot s (some head) = rw (dot_first s) refl

head_of-dot : (s : Text) → head_of (b'.' ∷ s) ≡ []
unfolding head_of
head_of-dot s = group_or_empty-dot s (named_reference (b'.' ∷ s))

-- The token of a path goes on behind what it starts with.
token-dot : (s : Text) → location_token (b'.' ∷ s) ≡ b'.' ∷ take_while in_token (rstrip s)
token-dot s =
    unfold location_token in
    rw (strip-ne_space b'.' s (unfold is_space in refl))
      (take_while-go in_token b'.' (rstrip s) (unfold is_space in refl))

behind-dot :
    (s : Text) → take_while in_token (rstrip (b'.' ∷ s)) ≡ b'.' ∷ take_while in_token (rstrip s)
behind-dot s =
    rw (rstrip-ne_space b'.' s (unfold is_space in refl))
      (take_while-go in_token b'.' (rstrip s) (unfold is_space in refl))

behind-slash :
    (s : Text) → take_while in_token (rstrip (b'/' ∷ s)) ≡ b'/' ∷ take_while in_token (rstrip s)
behind-slash s =
    rw (rstrip-ne_space b'/' s (unfold is_space in refl))
      (take_while-go in_token b'/' (rstrip s) (unfold is_space in refl))

token-Lacks : (s : Text) → Lacks b':' s → Lacks b':' (take_while in_token (rstrip s))
token-Lacks s h = take_while-Lacks in_token (rstrip s) (rstrip-All _ s h)

is_remote-dot : (t : Text) → Lacks b':' t → is_remote (b'.' ∷ t) ≡ false
unfolding is_remote lower starts_with
is_remote-dot t h = rw (contains-Lacks (b'.' ∷ t) (omega arith, h)) refl

is_relative_token-one : (t : Text) → Lacks b':' t → is_relative_token (b'.' ∷ b'/' ∷ t) ≡ true
unfolding is_relative_token starts_absolute has_drive is_path text_eq
is_relative_token-one t h = rw (is_remote-dot (b'/' ∷ t) (omega arith, h)) refl

is_relative_token-two :
    (t : Text) → Lacks b':' t → is_relative_token (b'.' ∷ b'.' ∷ b'/' ∷ t) ≡ true
unfolding is_relative_token starts_absolute has_drive is_path text_eq
is_relative_token-two t h =
    rw (is_remote-dot (b'.' ∷ b'/' ∷ t) (omega arith, (omega arith, h))) refl

is_relative_location-dotted : (v : Text) → IsDotted v → is_relative_location v ≡ true
is_relative_location-dotted v (inl (rest, e, h)) =
    rw (e, relative_step, token-dot, behind-slash) (is_relative_token-one _ (token-Lacks rest h))
is_relative_location-dotted v (inr (rest, e, h)) =
    rw (e, relative_step, token-dot, behind-dot, behind-slash)
      (is_relative_token-two _ (token-Lacks rest h))

-- A path from the working directory or its parent is relative as a whole, if it has no colon.
pub split_relative_requirement-dotted :
    (v : Text) → IsDotted v → split_relative_requirement v ≡ some ([], v)
split_relative_requirement-dotted v (inl (rest, e, h)) =
    let no_head : head_of v ≡ [] = ap head_of e ∙ head_of-dot (codes "/" ++ rest) in
    rw (split_step, no_head, is_relative_location-dotted v (inl (rest, e, h))) refl
split_relative_requirement-dotted v (inr (rest, e, h)) =
    let no_head : head_of v ≡ [] = ap head_of e ∙ head_of-dot (codes "./" ++ rest) in
    rw (split_step, no_head, is_relative_location-dotted v (inr (rest, e, h))) refl

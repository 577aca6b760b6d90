-- ===== src/Packing/GitSource/Key.antt =====
-- The key of a git source: `_GIT_KEY` of src/pwshpy/domain/packing.py.
use pwshpy.Base.{
  ℕ, Bool, true, false, ◌≡◌, ◌≢◌, refl, sym, ap, ◌∙◌, ◌↔◌, [], ◌∷◌, ◌++◌, arith, Bool-cases, inl,
  inr, ◌⊎◌, All, In, drop, drop-append, length, ◌==◌, ==_iff, ◌||◌,
}
use pwshpy.Text.{Text, codes, starts_with, has_char, is_space}
use pwshpy.Text.Laws.{starts_with-append, starts_with→eq}
use pwshpy.Text.Span.{take_while, drop_while, take_while-append-drop_while, take_while-All}
use pwshpy.Packing.GitSource.{
  single_equals, key_then_equals, git_key_here, before_key, git_key_inside, git_key,
}

-- White space and one equals sign.
abbrev pub StartsWithEquals : Text → Type 0
StartsWithEquals t =
    (blanks : Text) × (rest : Text) × (t ≡ blanks ++ b'=' ∷ rest)
    × All (λ c. is_space c ≡ true) blanks
    × ((more : Text) → rest ≢ b'=' ∷ more)

-- The key `git`, bare or quoted, in front of one equals sign.
abbrev pub StartsWithGitKey : Text → Type 0
StartsWithGitKey t =
    (key : Text) × (rest : Text) × (t ≡ key ++ rest)
    × In key (codes "git" ∷ codes "\"git\"" ∷ codes "'git'" ∷ [])
    × StartsWithEquals rest

-- At the start of the text, or behind white space, a brace, a comma or a dot.
abbrev pub HasGitKey : Text → Type 0
HasGitKey t =
    StartsWithGitKey t
    ⊎ ((before : Text) × (c : ℕ) × (rest : Text) × (t ≡ before ++ c ∷ rest)
        × ((is_space c ≡ true) ⊎ In c (codes "{,."))
        × StartsWithGitKey rest)

pub has_char→In : (c : ℕ) (t : Text) → has_char c t ≡ true → In c t
has_char→In c [] h = cc
has_char→In c (d ∷ t) h = elim (Bool-cases (c == d)) [
  | inl here ↦ inl ((==_iff c d).0 here)
  | inr other ↦ inr (has_char→In c t (ground arith))
]

pub In→has_char : (c : ℕ) (t : Text) → In c t → has_char c t ≡ true
In→has_char c [] h = absurd h
In→has_char c (d ∷ t) (inl e) = ground arith
In→has_char c (d ∷ t) (inr h) = ground (arith, In→has_char c t h)

drop_while-All :
    (blanks rest : Text)
    → All (λ c. is_space c ≡ true) blanks
    → drop_while is_space (blanks ++ rest) ≡ drop_while is_space rest
unfolding drop_while
drop_while-All [] rest h = refl
drop_while-All (c ∷ blanks) rest (s, ss) = rw s (drop_while-All blanks rest ss)

drop_while-equals : (rest : Text) → drop_while is_space (b'=' ∷ rest) ≡ b'=' ∷ rest
unfolding drop_while is_space
drop_while-equals rest = refl

twice-once :
    (rest : Text)
    → ((more : Text) → rest ≢ b'=' ∷ more)
    → starts_with (codes "==") (b'=' ∷ rest) ≡ false
unfolding starts_with
twice-once [] h = refl
twice-once (c ∷ rest) h = elim (Bool-cases (b'=' == c)) [
  | inr other ↦ rw other refl
  | inl equal ↦ absurd (h rest (ap (λ d. d ∷ rest) (sym ((==_iff b'=' c).0 equal))))
]

once-twice :
    (rest more : Text) → starts_with (codes "==") (b'=' ∷ rest) ≡ false → rest ≢ b'=' ∷ more
unfolding starts_with
once-twice [] more h e = cc
once-twice (c ∷ rest) more h e = ground (arith, h, e)

starts_with-equals : (rest : Text) → starts_with (codes "=") (b'=' ∷ rest) ≡ true
unfolding starts_with
starts_with-equals rest = refl

single_equals→ : (t : Text) → single_equals t ≡ true → StartsWithEquals t
single_equals→ t h =
    let tail = drop_while is_space t in
    let one : starts_with (codes "=") tail ≡ true = unfold single_equals in ground arith in
    let not_two : starts_with (codes "==") tail ≡ false = unfold single_equals in ground arith in
    let e = starts_with→eq (codes "=") tail one in
    (
      take_while is_space t,
      drop 1 tail,
      sym (take_while-append-drop_while is_space t) ∙ ap (λ s. take_while is_space t ++ s) e,
      take_while-All is_space t,
      λ more. once-twice (drop 1 tail) more (sym (ap (starts_with (codes "==")) e) ∙ not_two),
    )

→single_equals : (t : Text) → StartsWithEquals t → single_equals t ≡ true
→single_equals t (blanks, rest, e, spaces, once) =
    let tail : drop_while is_space t ≡ b'=' ∷ rest =
      ap (drop_while is_space) e
      ∙ (drop_while-All blanks (b'=' ∷ rest) spaces ∙ drop_while-equals rest) in
    unfold single_equals in rw (tail, starts_with-equals, twice-once rest once) refl

key_then_equals→ :
    (key t : Text)
    → In key (codes "git" ∷ codes "\"git\"" ∷ codes "'git'" ∷ [])
    → key_then_equals key t ≡ true
    → StartsWithGitKey t
key_then_equals→ key t i h =
    let s : starts_with key t ≡ true = ground arith in
    (
      key,
      drop (length key) t,
      starts_with→eq key t s,
      i,
      single_equals→ (drop (length key) t) (ground arith),
    )

→key_then_equals :
    (key rest : Text) → StartsWithEquals rest → key_then_equals key (key ++ rest) ≡ true
→key_then_equals key rest h =
    rw (starts_with-append key rest, drop-append key rest) (→single_equals rest h)

or_assoc : (a b c : Bool) → (a || b || c) ≡ (a || (b || c))
or_assoc true b c = refl
or_assoc false b c = refl

git_key_step :
    (t : Text)
    → git_key_here t ≡ (
        key_then_equals (codes "git") t
        || (key_then_equals (codes "\"git\"") t || key_then_equals (codes "'git'") t))
unfolding git_key_here
git_key_step t =
    or_assoc (key_then_equals (codes "git") t) (key_then_equals (codes "\"git\"") t)
      (key_then_equals (codes "'git'") t)

git_key_here→ : (t : Text) → git_key_here t ≡ true → StartsWithGitKey t
git_key_here→ t h = elim (Bool-cases (key_then_equals (codes "git") t)) [
  | inl bare ↦ key_then_equals→ (codes "git") t (inl refl) bare
  | inr not_bare ↦ elim (Bool-cases (key_then_equals (codes "\"git\"") t)) [
    | inl basic ↦ key_then_equals→ (codes "\"git\"") t (inr (inl refl)) basic
    | inr not_basic ↦
        key_then_equals→ (codes "'git'") t (inr (inr (inl refl)))
          (rw (git_key_step, not_bare, not_basic) at h)
  ]
]

pub or-second : (a b c : Bool) → b ≡ true → (a || (b || c)) ≡ true
or-second true b c h = refl
or-second false b c h = rw h refl

pub or-third : (a b c : Bool) → c ≡ true → (a || (b || c)) ≡ true
or-third true b c h = refl
or-third false true c h = refl
or-third false false c h = h

→git_key_here : (t : Text) → StartsWithGitKey t → git_key_here t ≡ true
→git_key_here t (key, rest, e, i, equals) =
    let k : key_then_equals key t ≡ true =
      ap (key_then_equals key) e ∙ →key_then_equals key rest equals in
    git_key_step t ∙ elim i [
      | inl a ↦ rw (rw a at k) refl
      | inr (inl a) ↦ or-second _ _ _ (rw a at k)
      | inr (inr (inl a)) ↦ or-third _ _ _ (rw a at k)
      | inr (inr (inr none_left)) ↦ absurd none_left
    ]

before_key→ : (c : ℕ) → before_key c ≡ true → (is_space c ≡ true) ⊎ In c (codes "{,.")
unfolding before_key
before_key→ c h = elim (Bool-cases (is_space c)) [
  | inl space ↦ inl space
  | inr no_space ↦ inr (has_char→In c (codes "{,.") (rw no_space at h))
]

→before_key : (c : ℕ) → (is_space c ≡ true) ⊎ In c (codes "{,.") → before_key c ≡ true
unfolding before_key
→before_key c (inl space) = rw space refl
→before_key c (inr i) = elim (Bool-cases (is_space c)) [
  | inl space ↦ rw space refl
  | inr no_space ↦ rw no_space (In→has_char c (codes "{,.") i)
]

git_key_inside-append :
    (before : Text) (c : ℕ) (rest : Text)
    → before_key c ≡ true
    → git_key_here rest ≡ true
    → git_key_inside (before ++ c ∷ rest) ≡ true
unfolding git_key_inside
git_key_inside-append [] c rest b k = ground arith
git_key_inside-append (d ∷ before) c rest b k =
    ground (arith, git_key_inside-append before c rest b k)

git_key_inside→ :
    (t : Text)
    → git_key_inside t ≡ true
    → (before : Text) × (c : ℕ) × (rest : Text) × (t ≡ before ++ c ∷ rest)
      × ((is_space c ≡ true) ⊎ In c (codes "{,."))
      × StartsWithGitKey rest
unfolding git_key_inside
git_key_inside→ [] h = cc
git_key_inside→ (c ∷ t) h = elim (Bool-cases (git_key_inside t)) [
  | inl later ↦
      let (before, d, rest, e, b, k) = git_key_inside→ t later in
      (c ∷ before, d, rest, ap (λ s. c ∷ s) e, b, k)
  | inr none_later ↦ ([], c, t, refl, before_key→ c (ground arith), git_key_here→ t (ground arith))
]

pub git_key_iff : (t : Text) → (git_key t ≡ true) ↔ HasGitKey t
unfolding git_key
git_key_iff t = (found, present)
  where
    found : git_key t ≡ true → HasGitKey t
    found h = elim (Bool-cases (git_key_here t)) [
      | inl here ↦ inl (git_key_here→ t here)
      | inr no_here ↦ inr (git_key_inside→ t (rw no_here at h))
    ]

    present : HasGitKey t → git_key t ≡ true
    present (inl here) = rw (→git_key_here t here) refl
    present (inr (before, c, rest, e, b, k)) =
        let inside : git_key_inside t ≡ true =
          ap git_key_inside e
          ∙ git_key_inside-append before c rest (→before_key c b) (→git_key_here rest k) in
        ground arith

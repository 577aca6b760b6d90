-- ===== src/Packing/GitSource/Named.antt =====
-- What `_may_name_a_git_source` of src/pwshpy/domain/packing.py looks for in a line's TOML.
use pwshpy.Base.{
  ℕ, true, ◌≡◌, refl, ap, ◌∙◌, ◌↔◌, [], ◌∷◌, ◌++◌, arith, Bool-cases, inl, inr, ◌⊎◌, all, All, In,
  ◌==◌, ==_iff,
}
use pwshpy.Text.{Text, codes, contains, has_char, is_space, lower}
use pwshpy.Text.Laws.{contains→eq, contains-append}
use pwshpy.Packing.GitSource.{
  git_requirement, git_key, escape_ahead, spelling_escape, may_name_a_git_source,
}
use pwshpy.Packing.GitSource.Key.{
  HasGitKey, has_char→In, In→has_char, or-second, or-third, git_key_iff,
}

-- A backslash in front of `u`, `U` or `x`, or of nothing but white space.
abbrev pub HasEscape : Text → Type 0
HasEscape t =
    (before : Text) × (rest : Text) × (t ≡ before ++ b'\\' ∷ rest)
    × (((c : ℕ) × (more : Text) × (rest ≡ c ∷ more) × In c (codes "uUx"))
        ⊎ All (λ c. is_space c ≡ true) rest)

abbrev pub HasGitUrl : Text → Type 0
HasGitUrl t = (before : Text) × (behind : Text) × (lower t ≡ before ++ (codes "git+" ++ behind))

abbrev pub NamesGit : Text → Type 0
NamesGit t = HasGitUrl t ⊎ (HasGitKey t ⊎ HasEscape t)

all→All : (t : Text) → all is_space t ≡ true → All (λ c. is_space c ≡ true) t
all→All [] h = tt
all→All (c ∷ t) h = (ground arith, all→All t (ground arith))

All→all : (t : Text) → All (λ c. is_space c ≡ true) t → all is_space t ≡ true
All→all [] h = refl
All→all (c ∷ t) (s, ss) = ground (arith, All→all t ss)

escape_ahead→ :
    (t : Text)
    → escape_ahead t ≡ true
    → ((c : ℕ) × (more : Text) × (t ≡ c ∷ more) × In c (codes "uUx"))
      ⊎ All (λ c. is_space c ≡ true) t
unfolding escape_ahead
escape_ahead→ [] h = inr tt
escape_ahead→ (c ∷ t) h = elim (Bool-cases (has_char c (codes "uUx"))) [
  | inl letter ↦ inl (c, t, refl, has_char→In c (codes "uUx") letter)
  | inr no_letter ↦ inr (all→All (c ∷ t) (ground arith))
]

→escape_ahead :
    (t : Text)
    → ((c : ℕ) × (more : Text) × (t ≡ c ∷ more) × In c (codes "uUx"))
      ⊎ All (λ c. is_space c ≡ true) t
    → escape_ahead t ≡ true
unfolding escape_ahead
→escape_ahead [] h = refl
→escape_ahead (d ∷ t) (inl (c, more, e, i)) = ground (arith, In→has_char c (codes "uUx") i)
→escape_ahead (d ∷ t) (inr spaces) = ground (arith, All→all (d ∷ t) spaces)

spelling_escape-append :
    (before rest : Text)
    → escape_ahead rest ≡ true
    → spelling_escape (before ++ b'\\' ∷ rest) ≡ true
unfolding spelling_escape
spelling_escape-append [] rest h = ground arith
spelling_escape-append (c ∷ before) rest h = ground (arith, spelling_escape-append before rest h)

spelling_escape→HasEscape : (t : Text) → spelling_escape t ≡ true → HasEscape t
unfolding spelling_escape
spelling_escape→HasEscape [] h = cc
spelling_escape→HasEscape (c ∷ t) h = elim (Bool-cases (spelling_escape t)) [
  | inl later ↦
      let (before, rest, e, k) = spelling_escape→HasEscape t later in
      (c ∷ before, rest, ap (λ s. c ∷ s) e, k)
  | inr none_later ↦
      let here : (c == b'\\') ≡ true = ground arith in
      ([], t, ap (λ d. d ∷ t) ((==_iff c b'\\').0 here), escape_ahead→ t (ground arith))
]

spelling_escape_iff : (t : Text) → (spelling_escape t ≡ true) ↔ HasEscape t
spelling_escape_iff t = (
  spelling_escape→HasEscape t,
  λ (before, rest, e, k).
      ap spelling_escape e ∙ spelling_escape-append before rest (→escape_ahead rest k),
)

pub git_requirement_iff : (t : Text) → (contains git_requirement (lower t) ≡ true) ↔ HasGitUrl t
git_requirement_iff t = (
  contains→eq git_requirement (lower t),
  λ (before, behind, e).
      ap (contains git_requirement) e ∙ contains-append git_requirement before behind,
)

-- A text may name a git source exactly if it holds `git+` in any case, the key `git`, or an escape
-- that could spell either.
pub may_name_a_git_source_iff : (t : Text) → (may_name_a_git_source t ≡ true) ↔ NamesGit t
unfolding may_name_a_git_source
may_name_a_git_source_iff t = (found, present)
  where
    found : may_name_a_git_source t ≡ true → NamesGit t
    found h = elim (Bool-cases (contains git_requirement (lower t))) [
      | inl url ↦ inl ((git_requirement_iff t).0 url)
      | inr no_url ↦ inr (elim (Bool-cases (git_key t)) [
        | inl key ↦ inl ((git_key_iff t).0 key)
        | inr no_key ↦ inr ((spelling_escape_iff t).0 (rw (no_url, no_key) at h))
      ])
    ]

    present : NamesGit t → may_name_a_git_source t ≡ true
    present (inl url) = rw ((git_requirement_iff t).1 url) refl
    present (inr (inl key)) = or-second _ _ _ ((git_key_iff t).1 key)
    present (inr (inr escape)) = or-third _ _ _ ((spelling_escape_iff t).1 escape)

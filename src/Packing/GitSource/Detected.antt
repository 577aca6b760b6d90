-- ===== src/Packing/GitSource/Detected.antt =====
-- Where a git source is found.
use pwshpy.Base.{
  true, ◌≡◌, refl, ap, ◌↔◌, List, [], ◌∷◌, ◌++◌, arith, Bool-cases, inl, inr, ◌⊎◌, any, take, In,
}
use pwshpy.Text.{Text, contains, lower}
use pwshpy.Text.Lines.{splitlines}
use pwshpy.Packing.Toml.{scan_toml_characters}
use pwshpy.Packing.RequiresPython.{uncommented, inner_lines}
use pwshpy.Packing.GitSource.{
  git_requirement, may_name_a_git_source, git_source_from, has_git_source,
}
use pwshpy.Packing.GitSource.Named.{
  HasGitUrl, NamesGit, git_requirement_iff, may_name_a_git_source_iff,
}

-- The string that is open behind some lines of the block.
abbrev pub open_after : Text → List Text → Text
open_after open_string [] = open_string
open_after open_string (raw ∷ raws) =
    open_after (scan_toml_characters (uncommented raw) open_string).open_string raws

-- A line's TOML, without the comment that the scan finds behind the lines before.
abbrev pub toml_of : List Text → Text → Text
toml_of before raw =
    take (scan_toml_characters (uncommented raw) (open_after [] before)).comment (uncommented raw)

abbrev toml_from : Text → List Text → Text → Text
toml_from open_string before raw =
    take (scan_toml_characters (uncommented raw) (open_after open_string before)).comment
      (uncommented raw)

abbrev NamesIn : Text → List Text → Type 0
NamesIn open_string raws =
    (before : List Text) × (raw : Text) × (after : List Text) × (raws ≡ before ++ raw ∷ after)
    × (may_name_a_git_source (toml_from open_string before raw) ≡ true)

-- The script names a git source: in a `--with` value, or in the TOML of a line of the block.
abbrev pub NamesGitSource : List Text → List Text → Type 0
NamesGitSource raws with_packages =
    ((name : Text) × In name with_packages × HasGitUrl name)
    ⊎ ((before : List Text) × (raw : Text) × (after : List Text) × (raws ≡ before ++ raw ∷ after)
        × NamesGit (toml_of before raw))

any-HasGitUrl :
    (names : List Text)
    → any (λ name. contains git_requirement (lower name)) names ≡ true
    → (name : Text) × In name names × HasGitUrl name
any-HasGitUrl [] h = cc
any-HasGitUrl (t ∷ names) h = elim (Bool-cases (contains git_requirement (lower t))) [
  | inl here ↦ (t, inl refl, (git_requirement_iff t).0 here)
  | inr no_here ↦ let (name, i, url) = any-HasGitUrl names (rw no_here at h) in (name, inr i, url)
]

HasGitUrl-any :
    (name : Text) (names : List Text)
    → In name names
    → HasGitUrl name
    → any (λ t. contains git_requirement (lower t)) names ≡ true
HasGitUrl-any name [] i url = absurd i
HasGitUrl-any name (t ∷ names) (inl e) url = rw (← e, (git_requirement_iff name).1 url) refl
HasGitUrl-any name (t ∷ names) (inr i) url =
    elim (Bool-cases (contains git_requirement (lower t))) [
      | inl here ↦ rw here refl
      | inr no_here ↦ rw no_here (HasGitUrl-any name names i url)
    ]

git_source_from→NamesIn :
    (open_string : Text) (raws : List Text)
    → git_source_from open_string raws ≡ true
    → NamesIn open_string raws
unfolding git_source_from
git_source_from→NamesIn open_string [] h = cc
git_source_from→NamesIn open_string (raw ∷ raws) h =
    elim (Bool-cases (may_name_a_git_source (toml_from open_string [] raw))) [
      | inl here ↦ ([], raw, raws, refl, here)
      | inr no_here ↦
          let (before, line, after, e, found) =
            git_source_from→NamesIn (scan_toml_characters (uncommented raw) open_string).open_string
              raws (rw no_here at h) in
          (raw ∷ before, line, after, ap (λ s. raw ∷ s) e, found)
    ]

git_source_from-append :
    (open_string : Text) (before : List Text) (raw : Text) (after : List Text)
    → may_name_a_git_source (toml_from open_string before raw) ≡ true
    → git_source_from open_string (before ++ raw ∷ after) ≡ true
unfolding git_source_from
git_source_from-append open_string [] raw after h = rw h refl
git_source_from-append open_string (l ∷ before) raw after h =
    elim (Bool-cases (may_name_a_git_source (toml_from open_string [] l))) [
      | inl here ↦ rw here refl
      | inr no_here ↦ rw no_here (
          git_source_from-append (scan_toml_characters (uncommented l) open_string).open_string
            before raw after h)
    ]

-- A script has a git source exactly if a `--with` value holds `git+` in any case, or if the TOML of
-- some line between the first and the last of its block does, or has there the key `git`, bare or
-- quoted, at its start or behind white space or one of `{,.`, and behind the key white space or none
-- and one equals sign, or a backslash in front of `u`, `U`, `x` or nothing but white space. The TOML
-- of a line is what stands before the comment that the scan finds when the strings the lines before
-- leave open are still open.
pub has_git_source_iff :
    (metadata : Text) (with_packages : List Text)
    → (has_git_source metadata with_packages ≡ true)
      ↔ NamesGitSource (inner_lines (splitlines metadata)) with_packages
unfolding has_git_source
has_git_source_iff metadata with_packages = (found, present)
  where
    found :
        has_git_source metadata with_packages ≡ true
        → NamesGitSource (inner_lines (splitlines metadata)) with_packages
    found h =
        elim (Bool-cases (any (λ name. contains git_requirement (lower name)) with_packages)) [
          | inl value ↦ inl (any-HasGitUrl with_packages value)
          | inr no_value ↦
              let (before, raw, after, e, may) = git_source_from→NamesIn [] _ (rw no_value at h) in
              inr (before, raw, after, e, (may_name_a_git_source_iff (toml_of before raw)).0 may)
        ]

    present :
        NamesGitSource (inner_lines (splitlines metadata)) with_packages
        → has_git_source metadata with_packages ≡ true
    present (inl (name, i, url)) = rw (HasGitUrl-any name with_packages i url) refl
    present (inr (before, raw, after, e, names)) = ground (
      arith,
      ap (git_source_from []) e,
      git_source_from-append [] before raw after
          ((may_name_a_git_source_iff (toml_of before raw)).1 names),
    )

-- ===== src/Shortcuts/Stored.antt =====
-- Which paths, targets and arguments src/pwshpy/domain/shortcuts.py accepts.
use pwshpy.Base.{
  ℕ, suc, ◌≤◌, ◌≡◌, ap, refl, subst, Bool, true, false, ◌||◌, List, [], ◌∷◌, map, Option, none,
  some, ltb, length, All, Bool-cases, inl, inr, ok, first_step, arith,
}
use pwshpy.Base.Int.{ℤ}
use pwshpy.Text.{Text}
use pwshpy.Shortcuts.Fields.{
  IsClean, text_of-eq_ok, text_of-IsClean, text-eq_ok, bounded-eq_ok, bounded-le,
}
use pwshpy.Shortcuts.{
  max_path, max_arguments, Value, text_value, bool_value, int_value, none_value, sequence,
  other_value, path, target, argument, text_of, text, environment_prefix, in_int32, icon_index_of,
  flag, argument_texts, is_lnk, lnk_path, target_of, line_within, arguments_of,
}

-- The items are the kept arguments, all of them clean.
abbrev AreKept : List (Option Text) → List Text → Type 0
AreKept items argv = (items ≡ map some argv) × All IsClean argv

argument_texts-eq_ok :
    (position : ℕ) (items : List (Option Text)) {argv : List Text}
    → argument_texts position items ≡ ok argv
    → (items ≡ map some argv) × All IsClean argv
unfolding argument_texts
argument_texts-eq_ok position [] {argv} h =
    let e : [] ≡ argv = cc in subst (AreKept []) e (refl, tt)
argument_texts-eq_ok position (none ∷ items) h = absurd (cc)
argument_texts-eq_ok position (some t ∷ items) {argv} h =
    let (first, e, h1) = first_step (text_of (argument position) t) _ h in
    let (rest, e1, h2) = first_step (argument_texts (suc position) items) _ h1 in
    let kept : first ∷ rest ≡ argv = cc in
    let (same, clean) = text_of-eq_ok (argument position) t e in
    let (same_rest, clean_rest) = argument_texts-eq_ok (suc position) items e1 in
    subst (AreKept (some t ∷ items)) kept (rw (same, same_rest) refl, (clean, clean_rest))

argument_texts-map :
    (position : ℕ) (argv : List Text)
    → All IsClean argv
    → argument_texts position (map some argv) ≡ ok argv
unfolding argument_texts
argument_texts-map position [] h = refl
argument_texts-map position (t ∷ argv) (h, hs) =
    rw (text_of-IsClean (argument position) t h)
      (rw (argument_texts-map (suc position) argv hs) refl)

pub icon_index_of-eq_ok :
    (value : Value) {n : ℤ}
    → icon_index_of value ≡ ok n
    → (value ≡ int_value n) × (in_int32 n ≡ true)
unfolding icon_index_of
icon_index_of-eq_ok (int_value m) {n} h = elim (Bool-cases (in_int32 m)) [
  | inl inside ↦
      let e : m ≡ n = cc (rw inside at h) in
      (ap int_value e, subst (λ z. in_int32 z ≡ true) e inside)
  | inr outside ↦ absurd (cc (rw outside at h))
]
icon_index_of-eq_ok (text_value t) h = absurd (cc)
icon_index_of-eq_ok (bool_value b) h = absurd (cc)
icon_index_of-eq_ok none_value h = absurd (cc)
icon_index_of-eq_ok (sequence items) h = absurd (cc)
icon_index_of-eq_ok other_value h = absurd (cc)

pub flag-eq_ok : (value : Value) {b : Bool} → flag value ≡ ok b → value ≡ bool_value b
unfolding flag
flag-eq_ok (bool_value c) {b} h = let e : c ≡ b = cc in ap bool_value e
flag-eq_ok (text_value t) h = absurd (cc)
flag-eq_ok (int_value n) h = absurd (cc)
flag-eq_ok none_value h = absurd (cc)
flag-eq_ok (sequence items) h = absurd (cc)
flag-eq_ok other_value h = absurd (cc)

module _ (is_absolute : Text → Bool) (suffix : Text → Text) (list2cmdline : List Text → Text) where
  abbrev pub IsLnkPath : Text → Type 0
  IsLnkPath t =
      IsClean t
      × (is_absolute t ≡ true)
      × (is_lnk is_absolute suffix list2cmdline t ≡ true)
      × (length t ≤ max_path)

  abbrev pub IsTarget : Text → Type 0
  IsTarget t = IsClean t × ((is_absolute t || environment_prefix t) ≡ true) × (length t ≤ max_path)

  pub lnk_path-eq_ok :
      (value : Value) {t : Text}
      → lnk_path is_absolute suffix list2cmdline value ≡ ok t
      → (value ≡ text_value t) × IsLnkPath t
  unfolding lnk_path
  lnk_path-eq_ok value h =
      let (u, e, h1) = first_step (text path value) _ h in
      elim (Bool-cases (is_absolute u)) [
        | inr relative ↦ absurd (cc (rw relative at h1))
        | inl absolute ↦ elim (Bool-cases (is_lnk is_absolute suffix list2cmdline u)) [
          | inr other ↦ absurd (cc (rw (absolute, other) at h1))
          | inl lnk ↦
              let (same, short) = bounded-eq_ok path u max_path (rw (absolute, lnk) at h1) in
              let (given, clean) = text-eq_ok path value e in
              subst (λ z. (value ≡ text_value z) × IsLnkPath z) same
                (given, (clean, absolute, lnk, short))
        ]
      ]

  pub IsLnkPath-lnk_path :
      (t : Text) → IsLnkPath t → lnk_path is_absolute suffix list2cmdline (text_value t) ≡ ok t
  unfolding lnk_path
  IsLnkPath-lnk_path t (clean, absolute, lnk, short) =
      rw (text_of-IsClean path t clean) (rw (absolute, lnk) (bounded-le path t max_path short))

  pub target_of-eq_ok :
      (value : Value) {t : Text}
      → target_of is_absolute suffix list2cmdline value ≡ ok t
      → (value ≡ text_value t) × IsTarget t
  unfolding target_of
  target_of-eq_ok value h =
      let (u, e, h1) = first_step (text target value) _ h in
      elim (Bool-cases (is_absolute u || environment_prefix u)) [
        | inr relative ↦ absurd (cc (rw relative at h1))
        | inl definite ↦
            let (same, short) = bounded-eq_ok target u max_path (rw definite at h1) in
            let (given, clean) = text-eq_ok target value e in
            subst (λ z. (value ≡ text_value z) × IsTarget z) same (given, (clean, definite, short))
      ]

  pub IsTarget-target_of :
      (t : Text) → IsTarget t → target_of is_absolute suffix list2cmdline (text_value t) ≡ ok t
  unfolding target_of
  IsTarget-target_of t (clean, definite, short) =
      rw (text_of-IsClean target t clean) (rw definite (bounded-le target t max_path short))

  abbrev pub IsArguments : List Text → Type 0
  IsArguments argv = All IsClean argv × (length (list2cmdline argv) ≤ max_arguments)

  pub arguments_of-eq_ok :
      (value : Value) {argv : List Text}
      → arguments_of is_absolute suffix list2cmdline value ≡ ok argv
      → (value ≡ sequence (map some argv)) × IsArguments argv
  unfolding arguments_of line_within
  arguments_of-eq_ok (sequence items) {argv} h =
      let (texts, e, h1) = first_step (argument_texts 1 items) _ h in
      elim (Bool-cases (ltb max_arguments (length (list2cmdline texts)))) [
        | inl long ↦ absurd (cc (rw long at h1))
        | inr short ↦
            let same : texts ≡ argv = cc (rw short at h1) in
            let within : length (list2cmdline texts) ≤ max_arguments = ground arith in
            let (given, clean) = argument_texts-eq_ok 1 items e in
            subst (λ z. (sequence items ≡ sequence (map some z)) × IsArguments z) same
              (ap sequence given, (clean, within))
      ]
  arguments_of-eq_ok (text_value t) h = absurd (cc)
  arguments_of-eq_ok (bool_value b) h = absurd (cc)
  arguments_of-eq_ok (int_value n) h = absurd (cc)
  arguments_of-eq_ok none_value h = absurd (cc)
  arguments_of-eq_ok other_value h = absurd (cc)

  pub IsArguments-arguments_of :
      (argv : List Text)
      → IsArguments argv
      → arguments_of is_absolute suffix list2cmdline (sequence (map some argv)) ≡ ok argv
  unfolding arguments_of line_within
  IsArguments-arguments_of argv (clean, short) =
      let within : ltb max_arguments (length (list2cmdline argv)) ≡ false = ground arith in
      rw (argument_texts-map 1 argv clean) (rw within refl)

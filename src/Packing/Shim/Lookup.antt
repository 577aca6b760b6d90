-- ===== src/Packing/Shim/Lookup.antt =====
-- Looking up names of the environment.
use pwshpy.Base.{◌≡◌, refl, ap, ◌∙◌, false, [], ◌∷◌, none, some, Bool-cases, inl, inr}
use pwshpy.Text.{Text, text_eq}
use pwshpy.Text.Laws.{text_eq→eq, text_eq_refl}
use pwshpy.Packing.Shim.{Environment, get, without, put}

pub get-without : (env : Environment) (name : Text) → get (without env name) name ≡ none
unfolding get without
get-without [] name = refl
get-without ((key, value) ∷ env) name = elim (Bool-cases (text_eq key name)) [
  | inl same ↦ rw same (get-without env name)
  | inr other ↦ rw (other, other) (get-without env name)
]

pub get-without-other :
    (env : Environment) (name other : Text)
    → text_eq name other ≡ false
    → get (without env name) other ≡ get env other
unfolding get without
get-without-other [] name other h = refl
get-without-other ((key, value) ∷ env) name other h = elim (Bool-cases (text_eq key name)) [
  | inl same ↦
      let differs : text_eq key other ≡ false =
        ap (λ k. text_eq k other) (text_eq→eq key name same) ∙ h in
      rw (same, differs) (get-without-other env name other h)
  | inr apart ↦ elim (Bool-cases (text_eq key other)) [
    | inl found ↦ rw (apart, found) refl
    | inr no_other ↦ rw (apart, no_other) (get-without-other env name other h)
  ]
]

-- A name has the value that was put there, and other names are as they were.
pub get-put : (env : Environment) (name value : Text) → get (put env name value) name ≡ some value
unfolding get
get-put env name value = rw text_eq_refl refl

pub get-put-other :
    (env : Environment) (name other value : Text)
    → text_eq name other ≡ false
    → get (put env name value) other ≡ get env other
unfolding get
get-put-other env name other value h = rw h (get-without-other env name other h)

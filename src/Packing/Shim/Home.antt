-- ===== src/Packing/Shim/Home.antt =====
-- The home variables that the shim gives back.
use pwshpy.Base.{
  ◌≡◌, refl, ap, ◌∙◌, true, false, List, [], ◌∷◌, Option, none, some, Bool-cases, inl, inr,
  ||-false, any,
}
use pwshpy.Text.{Text, text_eq, starts_with, mem_text}
use pwshpy.Text.Laws.{text_eq→eq, text_eq_refl}
use pwshpy.Packing.Runner.{caller_env_var}
use pwshpy.Packing.Shim.{
  Environment, get, without, put_or_pop, caller_env_names, caller_prefix, without_prefix, give_back,
  home_given_back, restore_the_callers_home,
}
use pwshpy.Packing.Shim.Lookup.{get-without-other, get-put-other}

get-without_prefix :
    (prefix : Text) (env : Environment) (name : Text)
    → starts_with prefix name ≡ false
    → get (without_prefix prefix env) name ≡ get env name
unfolding get without_prefix
get-without_prefix prefix [] name h = refl
get-without_prefix prefix ((key, value) ∷ env) name h = elim (Bool-cases (text_eq key name)) [
  | inl same ↦
      let kept : starts_with prefix key ≡ false =
        ap (starts_with prefix) (text_eq→eq key name same) ∙ h in
      rw (kept, same) refl
  | inr apart ↦ elim (Bool-cases (starts_with prefix key)) [
    | inl handed ↦ rw (handed, apart) (get-without_prefix prefix env name h)
    | inr kept ↦ rw (kept, apart) (get-without_prefix prefix env name h)
  ]
]

text_eq-false : (s t : Text) → text_eq s t ≡ false → text_eq t s ≡ false
text_eq-false s t h = elim (Bool-cases (text_eq t s)) [
  | inl same ↦
      let e : text_eq s t ≡ true = ap (λ u. text_eq s u) (text_eq→eq t s same) ∙ text_eq_refl s in
      absurd (cc (h, e))
  | inr apart ↦ apart
]

get-put_or_pop :
    (env : Environment) (name other : Text) (value : Option Text)
    → text_eq name other ≡ false
    → get (put_or_pop env name value) other ≡ get env other
get-put_or_pop env name other none h = get-without-other env name other h
get-put_or_pop env name other (some value) h = get-put-other env name other value h

get-give_back :
    (names : List Text) (values env : Environment) (other : Text)
    → any (text_eq other) names ≡ false
    → get (give_back names values env) other ≡ get env other
unfolding give_back
get-give_back [] values env other h = refl
get-give_back (name ∷ names) values env other h =
    let (apart, rest) = ||-false (text_eq other name) (any (text_eq other) names) h in
    get-give_back names values (put_or_pop env name (get values name)) other rest
    ∙ get-put_or_pop env name other (get values name) (text_eq-false other name apart)

get-home_given_back :
    (marker : Option Text) (values env : Environment) (other : Text)
    → mem_text other caller_env_names ≡ false
    → get (home_given_back marker values env) other ≡ get env other
unfolding mem_text
get-home_given_back none values env other h = refl
get-home_given_back (some marker) values env other h =
    get-give_back caller_env_names values env other h

-- Whatever is handed over, giving the home variables back leaves every other variable as it was: all
-- but the marker, those with its prefix and the ten names that the shim knows.
pub get-restore_the_callers_home :
    (env : Environment) (name : Text)
    → text_eq caller_env_var name ≡ false
    → starts_with caller_prefix name ≡ false
    → mem_text name caller_env_names ≡ false
    → get (restore_the_callers_home env) name ≡ get env name
unfolding restore_the_callers_home
get-restore_the_callers_home env name marker prefix names =
    get-home_given_back (get env caller_env_var) _ _ name names
    ∙ get-without_prefix caller_prefix (without env caller_env_var) name prefix
    ∙ get-without-other env caller_env_var name marker

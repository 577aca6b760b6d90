-- ===== src/Surrogates/Repaired.antt =====
-- The names that `repaired_key_names` of src/pwshpy/domain/surrogates.py gives.
use pwshpy.Base.{
  ◌≡◌, refl, sym, ap, subst, true, false, List, [], ◌∷◌, some, All, In, Bool-cases, inl, inr,
}
use pwshpy.Text.{Text, text_eq, mem_text}
use pwshpy.Surrogates.Free.{free_name-IsFree}
use pwshpy.Surrogates.Names.{
  IsValid, names, originals, IsDistinct, or_false, mem-set_name, set_name-IsDistinct, set_name-All,
  set_name-has, set_name-keeps, replace_surrogates-IsValid, suffixed-IsValid,
}
use pwshpy.Surrogates.{
  Key, text_key, other_key, replace_surrogates, text_has_surrogate, valid_keys, set_name, rename,
  repaired_key_names,
}

-- A name that is valid, and no valid key's.
abbrev pub IsOwn : List Text → Text → Type 0
IsOwn valid name = IsValid name × (mem_text name valid ≡ false)

-- Between two keys: the names given are distinct and their own, and they and the valid keys are taken.
abbrev IsNaming : List Text → List (Text × Text) → List Text → Type 0
IsNaming valid renamed taken =
    IsDistinct (names renamed)
    × All (IsOwn valid) (names renamed)
    × ((x : Text)
        → mem_text x taken ≡ false
        → (mem_text x (names renamed) ≡ false) × (mem_text x valid ≡ false))

set_name-IsNaming :
    (valid : List Text) (key name : Text) (renamed : List (Text × Text)) (taken : List Text)
    → IsNaming valid renamed taken
    → IsValid name
    → mem_text name taken ≡ false
    → IsNaming valid (set_name key name renamed) (name ∷ taken)
unfolding mem_text
set_name-IsNaming valid key name renamed taken (distinct, own, free) is_valid new =
    let (unused, no_key) = free name new in
    (
      set_name-IsDistinct key name renamed distinct unused,
      set_name-All (IsOwn valid) key name renamed (is_valid, no_key) own,
      λ x h.
          let (other, old) = or_false (text_eq x name) (mem_text x taken) h in
          let (a, b) = free x old in (mem-set_name x key name renamed a other, b),
    )

-- What the loop ends with, for the keys that are left.
IsRenamed :
    {Other : Type 0} → List Text → List (Key Other) → List (Text × Text) → List Text → Type 0
IsRenamed valid keys renamed taken =
    (final : List (Text × Text)) × (rename keys renamed taken ≡ some final)
    × IsDistinct (names final)
    × All (IsOwn valid) (names final)
    × ((t : Text) → In t (originals renamed) → In t (originals final))
    × ((t : Text) → In (text_key t) keys → text_has_surrogate t ≡ true → In t (originals final))

rename-IsRenamed :
    {Other : Type 0}
    → (valid : List Text) (keys : List (Key Other)) (renamed : List (Text × Text))
      (taken : List Text)
    → IsNaming valid renamed taken
    → IsRenamed valid keys renamed taken
unfolding rename IsRenamed
rename-IsRenamed valid [] renamed taken (distinct, own, free) =
    (renamed, refl, distinct, own, λ t m. m, λ t m. absurd m)
rename-IsRenamed valid (other_key other ∷ keys) renamed taken naming =
    let (final, e, distinct, own, kept, given) = rename-IsRenamed valid keys renamed taken naming in
    (
      final,
      e,
      distinct,
      own,
      kept,
      λ t m s. elim m [ inl same ↦ absurd (cc) | inr i ↦ given t i s ],
    )
rename-IsRenamed valid (text_key text ∷ keys) renamed taken naming =
    elim (Bool-cases (text_has_surrogate text)) [
      | inr clean ↦
          let (final, e, distinct, own, kept, given) =
            rename-IsRenamed valid keys renamed taken naming in
          (
            final,
            rw clean e,
            distinct,
            own,
            kept,
            λ t m s. elim m [
              | inl same ↦
                  let e2 : t ≡ text = cc in absurd (cc (ap text_has_surrogate e2, s, clean))
              | inr i ↦ given t i s
            ],
          )
      | inl broken ↦
          let (name, found, new, is_valid) =
            free_name-IsFree IsValid (replace_surrogates text) taken
              (replace_surrogates-IsValid text)
              (λ s.
                suffixed-IsValid (replace_surrogates text) s (replace_surrogates-IsValid text)) in
          let (final, e, distinct, own, kept, given) =
            rename-IsRenamed valid keys (set_name text name renamed) (name ∷ taken)
              (set_name-IsNaming valid text name renamed taken naming is_valid new) in
          (
            final,
            rw (broken, found) e,
            distinct,
            own,
            λ t m. kept t (set_name-keeps text name t renamed m),
            λ t m s. elim m [
              | inl same ↦
                  let e2 : t ≡ text = cc in
                  kept t (
                    subst (λ z. In z (originals (set_name text name renamed))) (sym e2)
                      (set_name-has text name renamed))
              | inr i ↦ given t i s
            ],
          )
    ]

-- The search of names ends for all keys; the names are distinct, hold no lone surrogate, are no
-- valid key's, and every key that holds a lone surrogate has one.
pub repaired_key_names-IsDistinct :
    {Other : Type 0}
    → (keys : List (Key Other))
    → (renamed : List (Text × Text)) × (repaired_key_names keys ≡ some renamed)
      × IsDistinct (names renamed)
      × All (IsOwn (valid_keys keys)) (names renamed)
      × ((t : Text) → In (text_key t) keys → text_has_surrogate t ≡ true → In t (originals renamed))
unfolding repaired_key_names IsRenamed mem_text
repaired_key_names-IsDistinct keys =
    let (renamed, e, distinct, own, kept, given) =
      rename-IsRenamed (valid_keys keys) keys [] (valid_keys keys) (tt, tt, λ x h. (refl, h)) in
    (renamed, e, distinct, own, given)

-- ===== src/Enums/ByValue.antt =====
-- Looking up a member of an enumeration by its value, as a call of the class does.
use pwshpy.Base.{
  ◌≡◌, List, [], ◌∷◌, Option, none, some, if◌then◌else◌, Bool-cases, inl, inr, ap, ◌∙◌,
}
use pwshpy.Text.{Text, text_eq}
use pwshpy.Text.Laws.{text_eq→eq}

module _ {ℓ} {Member : Type ℓ} (value : Member → Text) where
  -- The first member with that value.
  unfoldable pub by_value : List Member → Text → Option Member
  by_value [] text = none
  by_value (m ∷ members) text =
      let later = by_value members text in if text_eq text (value m) then some m else later

  pub by_value→eq :
      (members : List Member) (text : Text) (m : Member)
      → by_value members text ≡ some m
      → text ≡ value m
  unfolding by_value
  by_value→eq [] text m h = absurd (cc)
  by_value→eq (k ∷ members) text m h = elim (Bool-cases (text_eq text (value k))) [
    | inl here ↦
        let same : k ≡ m = cc (rw here at h) in text_eq→eq text (value k) here ∙ ap value same
    | inr later ↦ by_value→eq members text m (rw later at h)
  ]

-- ===== src/Text/Span.antt =====
-- The longest prefix of characters that pass a test, as `[...]*` of `re` takes it.
use pwshpy.Base.{
  ℕ, Bool, true, false, ◌≡◌, refl, [], ◌∷◌, ◌++◌, arith, if◌then◌else◌, Bool-cases, inl, inr, All,
}
use pwshpy.Text.{Text}

module _ (p : ℕ → Bool) where
  unfoldable pub take_while : Text → Text
  take_while [] = []
  take_while (c ∷ s) = let rest = take_while s in if p c then c ∷ rest else []

  unfoldable pub drop_while : Text → Text
  drop_while [] = []
  drop_while (c ∷ s) = let rest = drop_while s in if p c then rest else c ∷ s

  pub take_while-append-drop_while : (s : Text) → take_while s ++ drop_while s ≡ s
  unfolding take_while drop_while
  take_while-append-drop_while [] = refl
  take_while-append-drop_while (c ∷ s) = ground (arith, take_while-append-drop_while s)

  pub take_while-All : (s : Text) → All (λ c. p c ≡ true) (take_while s)
  unfolding take_while
  take_while-All [] = tt
  take_while-All (c ∷ s) = elim (Bool-cases (p c)) [
    | inl pass ↦ rw pass (pass, take_while-All s)
    | inr stop ↦ rw stop tt
  ]

  pub take_while-stop : (c : ℕ) (s : Text) → p c ≡ false → take_while (c ∷ s) ≡ []
  unfolding take_while
  take_while-stop c s h = rw h

  pub drop_while-stop : (c : ℕ) (s : Text) → p c ≡ false → drop_while (c ∷ s) ≡ c ∷ s
  unfolding drop_while
  drop_while-stop c s h = rw h

  pub take_while-go : (c : ℕ) (s : Text) → p c ≡ true → take_while (c ∷ s) ≡ c ∷ take_while s
  unfolding take_while
  take_while-go c s h = rw h

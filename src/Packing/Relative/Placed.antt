-- ===== src/Packing/Relative/Placed.antt =====
-- What becomes of each argument: which ones are re-anchored, and what stands in their place.
use pwshpy.Base.{
  ◌≡◌, ◌≢◌, refl, List, [], ◌∷◌, map, Option, none, some, true, Bool-cases, inl, inr, if◌then◌else◌,
}
use pwshpy.Text.{Text, codes, text_eq, has_char}
use pwshpy.Text.Laws.{text_eq→eq, text_eq_iff}
use pwshpy.Packing.Relative.{split_relative_requirement, anchored_from}
use pwshpy.Packing.Relative.Split.{split_relative_requirement-eq_none}
use pwshpy.Packing.Relative.Dotted.{IsDotted, split_relative_requirement-dotted}

-- The text starts with a slash, a backslash, a tilde or a dollar sign.
abbrev pub IsAbsolute : Text → Type 0
IsAbsolute [] = ⊥
IsAbsolute (c ∷ s) = has_char c (codes "/\\~$") ≡ true

module _ (left : Text → Text) (put : Text → Text → Text) where
  -- What stands for an argument, by the one before it: the argument is left as it is if it is not
  -- the value of `--with`; such a value is left or put by what it is cut into, put as a whole if it
  -- is a dotted path, and left if it is an absolute one.
  abbrev pub StandsFor : Text → Text → Text → Type 0
  StandsFor previous v w =
      (previous ≢ codes "--with" → w ≡ left v)
      × (previous ≡ codes "--with"
          → ((head location : Text)
              → split_relative_requirement v ≡ some (head, location)
              → w ≡ put head location)
            × (split_relative_requirement v ≡ none → w ≡ left v)
            × (IsDotted v → w ≡ put [] v)
            × (IsAbsolute v → w ≡ left v))

  -- Each text stands for its argument, in order.
  abbrev pub StandFor : Text → List Text → List Text → Type 0
  StandFor previous [] [] = Unit
  StandFor previous [] (w ∷ ws) = ⊥
  StandFor previous (v ∷ vs) [] = ⊥
  StandFor previous (v ∷ vs) (w ∷ ws) = StandsFor previous v w × StandFor v vs ws

  module _ (shown : Text × Option (Text × Text) → Text)
      (shown_none : (v : Text) → shown (v, none) ≡ left v)
      (shown_some : (v head location : Text)
        → shown (v, some (head, location)) ≡ put head location) where
    StandsFor-value :
        (v : Text) → StandsFor (codes "--with") v (shown (v, split_relative_requirement v))
    StandsFor-value v = (
      λ n. absurd (n refl),
      λ e. (
        λ head location split. rw split (shown_some v head location),
        λ split. rw split (shown_none v),
        λ dotted. rw (split_relative_requirement-dotted v dotted) (shown_some v [] v),
        absolute v,
      ),
    )
      where
        absolute : (t : Text) → IsAbsolute t → shown (t, split_relative_requirement t) ≡ left t
        absolute [] h = absurd h
        absolute (c ∷ s) h = rw (split_relative_requirement-eq_none c s h) (shown_none (c ∷ s))

    StandsFor-requirement :
        (previous v : Text)
        → StandsFor previous v (
            shown
              (v, if text_eq previous (codes "--with") then split_relative_requirement v else none))
    StandsFor-requirement previous v = elim (Bool-cases (text_eq previous (codes "--with"))) [
      | inl value ↦ rw (value, text_eq→eq previous (codes "--with") value) (StandsFor-value v)
      | inr other ↦
          rw other (
            λ n. shown_none v,
            λ e. absurd (cc ((text_eq_iff previous (codes "--with")).1 e, other)),
          )
    ]

    pub StandFor-anchored_from :
        (previous : Text) (values : List Text)
        → StandFor previous values (map shown (anchored_from previous values))
    unfolding anchored_from
    StandFor-anchored_from previous [] = tt
    StandFor-anchored_from previous (v ∷ vs) =
        (StandsFor-requirement previous v, StandFor-anchored_from v vs)

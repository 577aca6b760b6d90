-- ===== src/Packing/Imports/Paths.antt =====
-- Where an imported name is looked for, and how it is classified.
use pwshpy.Base.{◌≡◌, refl, ap, [], ◌∷◌, ◌++◌, arith, inl, inr, length-append, length, ◌⊎◌}
use pwshpy.Text.{Text, codes, replace}
use pwshpy.Text.Laws.{Lacks}
use pwshpy.Packing.Imports.{dot, candidate_relative_paths}

abbrev slashed : Text → Text
slashed t = replace dot (codes "/") t

-- Two texts with the same end are equal up to it.
append_cancel : (s t e : Text) → s ++ e ≡ t ++ e → s ≡ t
append_cancel [] [] e h = refl
append_cancel [] (d ∷ t) e h = absurd (omega (arith, ap length h, length-append t e))
append_cancel (c ∷ s) [] e h = absurd (omega (arith, ap length h, length-append s e))
append_cancel (c ∷ s) (d ∷ t) e h = cc (append_cancel s t e (cc))

slashed-injective : (s t : Text) → Lacks b'/' s → Lacks b'/' t → slashed s ≡ slashed t → s ≡ t
unfolding replace
slashed-injective [] [] hs ht e = refl
slashed-injective [] (d ∷ t) hs ht e = ground arith
slashed-injective (c ∷ s) [] hs ht e = ground arith
slashed-injective (c ∷ s) (d ∷ t) hs ht e = ground (arith, slashed-injective s t)

-- Names that hold no slash, and look for their module in the same file or their package in the
-- same file, are the same name.
pub candidate_relative_paths-injective :
    (s t : Text)
    → Lacks b'/' s
    → Lacks b'/' t
    → ((candidate_relative_paths s).0 ≡ (candidate_relative_paths t).0)
      ⊎ ((candidate_relative_paths s).1 ≡ (candidate_relative_paths t).1)
    → s ≡ t
candidate_relative_paths-injective s t hs ht (inl e) =
    slashed-injective s t hs ht
      (append_cancel _ _ (codes ".py") (unfold candidate_relative_paths in e))
candidate_relative_paths-injective s t hs ht (inr e) =
    slashed-injective s t hs ht
      (append_cancel _ _ (codes "/__init__.py") (unfold candidate_relative_paths in e))

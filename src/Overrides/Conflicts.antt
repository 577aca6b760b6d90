-- ===== src/Overrides/Conflicts.antt =====
-- What `_refuse_conflicts` of src/pwshpy/adapters/config/overrides.py refuses.
use pwshpy.Base.{
  true, false, ◌≡◌, ◌≢◌, refl, sym, ap, ◌∙◌, List, [], ◌∷◌, ◌++◌, append_assoc, Option, none, some,
  map, Bool-cases, inl, inr, In, ok, first_check,
}
use pwshpy.Text.{Text, join, starts_with}
use pwshpy.Text.Laws.{starts_with-append}
use pwshpy.Text.Split.{join-more}
use pwshpy.Overrides.{
  ConfigOverride, dot, dotted_key, first_nested, refuse_nested, refuse_each, refuse_conflicts,
}

-- A dotted key with further keys starts with the key and a dot.
join-append :
    (p : Text) (ps : List Text) (x : Text) (s : List Text)
    → join (dot ∷ []) (p ∷ (ps ++ x ∷ s))
      ≡ (join (dot ∷ []) (p ∷ ps) ++ dot ∷ []) ++ join (dot ∷ []) (x ∷ s)
unfolding join
join-append p [] x s =
    join-more (dot ∷ []) p x s ∙ sym (append_assoc p (dot ∷ []) (join (dot ∷ []) (x ∷ s)))
join-append p (q ∷ ps) x s =
    join-more (dot ∷ []) p q (ps ++ x ∷ s)
    ∙ ap (λ z. p ++ dot ∷ z) (join-append q ps x s)
    ∙ sym (
        ap (λ z. z ++ join (dot ∷ []) (x ∷ s))
          (append_assoc p (dot ∷ join (dot ∷ []) (q ∷ ps)) (dot ∷ []))
        ∙ append_assoc p (dot ∷ (join (dot ∷ []) (q ∷ ps) ++ dot ∷ [])) (join (dot ∷ []) (x ∷ s)))

module _ {Json : Type 0} where
  abbrev pub path_of : ConfigOverride Json → List Text
  path_of override = override.section ∷ override.key_path

  dotted_key-starts_with :
      (a b : ConfigOverride Json) (x : Text) (s : List Text)
      → path_of b ≡ path_of a ++ x ∷ s
      → starts_with (dotted_key a ++ dot ∷ []) (dotted_key b) ≡ true
  unfolding dotted_key
  dotted_key-starts_with a b x s e =
      let longer = ap (join (dot ∷ [])) e ∙ join-append a.section a.key_path x s in
      rw longer
        (starts_with-append (join (dot ∷ []) (path_of a) ++ dot ∷ []) (join (dot ∷ []) (x ∷ s)))

first_nested-eq_none :
    (key : Text) (keys : List Text)
    → first_nested key keys ≡ none
    → (other : Text) → In other keys
    → starts_with (key ++ dot ∷ []) other ≡ false
unfolding first_nested
first_nested-eq_none key [] h other m = absurd m
first_nested-eq_none key (k ∷ keys) h other m =
    elim (Bool-cases (starts_with (key ++ dot ∷ []) k)) [
      | inl starts ↦ absurd (cc (rw starts at h))
      | inr differs ↦ elim m [
        | inl e ↦ ap (starts_with (key ++ dot ∷ [])) e ∙ differs
        | inr i ↦ first_nested-eq_none key keys (rw differs at h) other i
      ]
    ]

refuse_nested-eq_ok : (key : Text) (o : Option Text) → refuse_nested key o ≡ ok tt → o ≡ none
refuse_nested-eq_ok key none h = refl
refuse_nested-eq_ok key (some nested) h = absurd (cc)

refuse_each-eq_ok :
    (all_keys keys : List Text)
    → refuse_each all_keys keys ≡ ok tt
    → (key other : Text) → In key keys
    → In other all_keys
    → starts_with (key ++ dot ∷ []) other ≡ false
unfolding refuse_each
refuse_each-eq_ok all_keys [] h key other m i = absurd m
refuse_each-eq_ok all_keys (k ∷ keys) h key other m i =
    let (first, rest) = first_check (refuse_nested k (first_nested k all_keys)) _ h in
    let none_nested = first_nested-eq_none k all_keys (refuse_nested-eq_ok k _ first) in
    elim m [
      | inl e ↦ ap (λ z. starts_with (z ++ dot ∷ []) other) e ∙ none_nested other i
      | inr j ↦ refuse_each-eq_ok all_keys keys rest key other j i
    ]

In-map : {A B : Type 0} (f : A → B) (a : A) (xs : List A) → In a xs → In (f a) (map f xs)
In-map f a [] m = absurd m
In-map f a (x ∷ xs) (inl e) = inl (ap f e)
In-map f a (x ∷ xs) (inr m) = inr (In-map f a xs m)

module _ {Json : Type 0} where
  -- No override puts a key under another's value.
  unfoldable pub NoneUnder : List (ConfigOverride Json) → Type 0
  NoneUnder overrides =
      (a b : ConfigOverride Json)
      → In a overrides
      → In b overrides
      → (x : Text) (s : List Text) → path_of b ≢ path_of a ++ x ∷ s

  pub refuse_conflicts-NoneUnder :
      (overrides : List (ConfigOverride Json))
      → refuse_conflicts (map dotted_key overrides) ≡ ok tt
      → NoneUnder overrides
  unfolding NoneUnder
  refuse_conflicts-NoneUnder overrides h a b i j x s e =
      let keys = map dotted_key overrides in
      absurd (
        cc (
          refuse_each-eq_ok keys keys h (dotted_key a) (dotted_key b)
              (In-map dotted_key a overrides i) (In-map dotted_key b overrides j),
          dotted_key-starts_with a b x s e,
        ))

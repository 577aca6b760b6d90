-- ===== src/Overrides/Parsed.antt =====
-- What `parse_override` of src/pwshpy/adapters/config/overrides.py accepts.
use pwshpy.Base.{
  ℕ, true, false, not, ◌≡◌, ◌≢◌, ◌↔◌, refl, sym, ap, subst, ◌∙◌, List, [], ◌∷◌, ◌++◌, Option, all,
  All, Bool-cases, inl, inr, ◌==◌, ok, arith,
}
use pwshpy.Text.{Text, has_char, split, join}
use pwshpy.Text.Laws.{Lacks}
use pwshpy.Text.Split.{split-eq_cons, join-split, split-Lacks, split-join, join-one, join-more}
use pwshpy.Overrides.{
  split_once, ConfigOverride, is_empty, equals_sign, dot, dotted_key, coerce_value, checked_parts,
  parse_override,
}

split_once-append :
    (sep : ℕ) (t : Text)
    → has_char sep t ≡ true
    → (t ≡ (split_once sep t).0 ++ sep ∷ (split_once sep t).1) × Lacks sep (split_once sep t).0
unfolding split_once
split_once-append sep [] h = absurd (cc)
split_once-append sep (c ∷ t) h = elim (Bool-cases (c == sep)) [
  | inl here ↦ rw here (let e : c ≡ sep = ground arith in ap (λ z. z ∷ t) e, tt)
  | inr later ↦
      let (e, lacks) = split_once-append sep t (ground arith) in
      rw later (ap (λ z. c ∷ z) e, (ground arith, lacks))
]

split_once-eq : (sep : ℕ) (a b : Text) → Lacks sep a → split_once sep (a ++ sep ∷ b) ≡ (a, b)
unfolding split_once
split_once-eq sep [] b h = ground arith
split_once-eq sep (c ∷ a) b (h, hs) =
    let e : (c == sep) ≡ false = ground arith in rw (split_once-eq sep a b hs, e) refl

has_char-append : (sep : ℕ) (a b : Text) → has_char sep (a ++ sep ∷ b) ≡ true
has_char-append sep [] b = ground arith
has_char-append sep (c ∷ a) b = ground (arith, has_char-append sep a b)

-- A text with the separator in it has two parts or more.
split-eq_two :
    (sep : ℕ) (t : Text)
    → has_char sep t ≡ true
    → (p : Text) × (q : Text) × (ps : List Text) × (split sep t ≡ p ∷ q ∷ ps)
split-eq_two sep t h = let (p, ps, e) = split-eq_cons sep t in two p ps e
  where
    one_lacks : (p : Text) → Lacks sep p → has_char sep p ≡ false
    one_lacks [] l = refl
    one_lacks (c ∷ p) (l, ls) = ground (arith, one_lacks p ls)

    two :
        (p : Text) (ps : List Text)
        → split sep t ≡ p ∷ ps
        → (p : Text) × (q : Text) × (ps : List Text) × (split sep t ≡ p ∷ q ∷ ps)
    two p [] e =
        let same : p ≡ t =
          sym (join-one (sep ∷ []) p) ∙ ap (join (sep ∷ [])) (sym e) ∙ join-split sep t in
        let lacks : Lacks sep p = (subst (All (Lacks sep)) e (split-Lacks sep t)).0 in
        absurd (cc (one_lacks p lacks, ap (has_char sep) same, h))
    two p (q ∷ ps) e = (p, q, ps, e)

abbrev pub IsPart : Text → Type 0
IsPart p = (p ≢ []) × Lacks dot p

not_empty_iff : (p : Text) → (is_empty p ≡ false) ↔ (p ≢ [])
not_empty_iff [] = (λ h. cc, λ h. absurd (h refl))
not_empty_iff (c ∷ p) = (λ h. cc, λ h. refl)

all_parts : (ps : List Text) → all (λ p. not (is_empty p)) ps ≡ true → All (λ p. p ≢ []) ps
all_parts [] h = tt
all_parts ([] ∷ ps) h = absurd (cc)
all_parts ((c ∷ p) ∷ ps) h = (cc, all_parts ps h)

parts_all : (ps : List Text) → All IsPart ps → all (λ p. not (is_empty p)) ps ≡ true
parts_all [] h = refl
parts_all ([] ∷ ps) ((h, l), hs) = absurd (h refl)
parts_all ((c ∷ p) ∷ ps) (h, hs) = parts_all ps hs

All-both : (ps : List Text) → All (λ p. p ≢ []) ps → All (Lacks dot) ps → All IsPart ps
All-both [] h l = tt
All-both (p ∷ ps) (h, hs) (l, ls) = ((h, l), All-both ps hs ls)

All-right : (ps : List Text) → All IsPart ps → All (Lacks dot) ps
All-right [] h = tt
All-right (p ∷ ps) ((h, l), hs) = (l, All-right ps hs)

module _ {Json : Type 0} (loads : Text → Option Json) where
  -- The text is the override's dotted key, an equals sign and a text that its value comes from; the
  -- key holds no equals sign, and has two parts or more, none of them empty or with a dot in it.
  unfoldable pub IsOverride : Text → ConfigOverride Json → Type 0
  IsOverride raw override =
      (value : Text) × (raw ≡ dotted_key override ++ equals_sign ∷ value)
      × (override.value ≡ coerce_value loads value)
      × Lacks equals_sign (dotted_key override)
      × All IsPart (override.section ∷ override.key_path)
      × (override.key_path ≢ [])

  checked_parts-eq_ok :
      (raw value : Text) (p : Text) (ps : List Text) {override : ConfigOverride Json}
      → checked_parts loads raw value (p ∷ ps) ≡ ok override
      → (record { section = p; key_path = ps; value = coerce_value loads value } ≡ override)
        × All (λ part. part ≢ []) (p ∷ ps)
  unfolding checked_parts
  checked_parts-eq_ok raw value p ps h = elim (Bool-cases (is_empty p)) [
    | inl e ↦ absurd (cc (rw e at h))
    | inr some_section ↦ elim (Bool-cases (all (λ part. not (is_empty part)) ps)) [
      | inl full ↦
          (cc (rw (some_section, full) at h), ((not_empty_iff p).0 some_section, all_parts ps full))
      | inr part ↦ absurd (cc (rw (some_section, part) at h))
    ]
  ]

  parse_override_parts :
      (raw : Text)
      → has_char equals_sign raw ≡ true
      → has_char dot (split_once equals_sign raw).0 ≡ true
      → parse_override loads raw
        ≡ checked_parts loads raw
            (split_once equals_sign raw).1
            (split dot (split_once equals_sign raw).0)
  unfolding parse_override
  parse_override_parts raw h d = rw (h, d) refl

  parse_override-has :
      (raw : Text) {override : ConfigOverride Json}
      → parse_override loads raw ≡ ok override
      → (has_char equals_sign raw ≡ true) × (has_char dot (split_once equals_sign raw).0 ≡ true)
  unfolding parse_override
  parse_override-has raw h = elim (Bool-cases (has_char equals_sign raw)) [
    | inr e ↦ absurd (cc (rw e at h))
    | inl e ↦ elim (Bool-cases (has_char dot (split_once equals_sign raw).0)) [
      | inr d ↦ absurd (cc (rw (e, d) at h))
      | inl d ↦ (e, d)
    ]
  ]

  parsed-IsOverride :
      (raw : Text) (override : ConfigOverride Json)
      → parse_override loads raw ≡ ok override
      → IsOverride raw override
  unfolding IsOverride dotted_key
  parsed-IsOverride raw override h =
      let (e, d) = parse_override-has raw h in
      let (before, behind) = split_once equals_sign raw in
      let (whole, lacks) = split_once-append equals_sign raw e in
      let (p, q, ps, parts) = split-eq_two dot before d in
      let k : checked_parts loads raw behind (p ∷ q ∷ ps) ≡ ok override =
        ap (checked_parts loads raw behind) (sym parts) ∙ sym (parse_override_parts raw e d) ∙ h in
      let (same, full) = checked_parts-eq_ok raw behind p (q ∷ ps) k in
      let key : join (dot ∷ []) (p ∷ q ∷ ps) ≡ before =
        ap (join (dot ∷ [])) (sym parts) ∙ join-split dot before in
      let dots : All (Lacks dot) (p ∷ q ∷ ps) =
        subst (All (Lacks dot)) parts (split-Lacks dot before) in
      subst (λ o. IsOverride raw o) same
        (
          behind,
          rw key whole,
          refl,
          rw key lacks,
          All-both (p ∷ q ∷ ps) full dots,
          λ z. absurd (cc z),
        )

  part_not_empty : (p : Text) → IsPart p → is_empty p ≡ false
  part_not_empty p (h, l) = (not_empty_iff p).1 h

  parts-parse_override :
      (raw value p : Text) (ps : List Text)
      → raw ≡ join (dot ∷ []) (p ∷ ps) ++ equals_sign ∷ value
      → Lacks equals_sign (join (dot ∷ []) (p ∷ ps))
      → All IsPart (p ∷ ps)
      → ps ≢ []
      → parse_override loads raw
        ≡ ok (record { section = p; key_path = ps; value = coerce_value loads value })
  parts-parse_override raw value p [] whole lacks full two = absurd (two refl)
  parts-parse_override raw value p (q ∷ ps) whole lacks full two =
      let key = join (dot ∷ []) (p ∷ q ∷ ps) in
      let once : split_once equals_sign raw ≡ (key, value) =
        ap (split_once equals_sign) whole ∙ split_once-eq equals_sign key value lacks in
      let e : has_char equals_sign raw ≡ true = rw whole (has_char-append equals_sign key value) in
      let d : has_char dot key ≡ true =
        rw (join-more (dot ∷ []) p q ps) (has_char-append dot p (join (dot ∷ []) (q ∷ ps))) in
      let d1 : has_char dot (split_once equals_sign raw).0 ≡ true = rw once d in
      let parts : split dot key ≡ p ∷ q ∷ ps =
        split-join dot p (q ∷ ps) (All-right (p ∷ q ∷ ps) full) in
      let checked : checked_parts loads raw value (p ∷ q ∷ ps)
          ≡ ok (record { section = p; key_path = q ∷ ps; value = coerce_value loads value }) =
        unfold checked_parts in rw (part_not_empty p full.0, parts_all (q ∷ ps) full.1) refl in
      parse_override_parts raw e d1
      ∙ ap (λ z. checked_parts loads raw z.1 (split dot z.0)) once
      ∙ ap (checked_parts loads raw value) parts
      ∙ checked

  -- A text is parsed exactly if it is a dotted key without an equals sign, of two parts or more, none
  -- of them empty, then an equals sign and a value's text; it gives the section, keys and value of these.
  pub parse_override-eq_ok :
      (raw : Text) (override : ConfigOverride Json)
      → (parse_override loads raw ≡ ok override) ↔ IsOverride raw override
  unfolding IsOverride dotted_key
  parse_override-eq_ok raw override = (parsed-IsOverride raw override, is_parsed)
    where
      is_parsed : IsOverride raw override → parse_override loads raw ≡ ok override
      is_parsed h =
          let (value, whole, coerced, lacks, full, two) = h in
          parts-parse_override raw value override.section override.key_path whole lacks full two
          ∙ ap
              (λ v.
                ok (record { section = override.section; key_path = override.key_path; value = v }))
              (sym coerced)

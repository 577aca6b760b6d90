-- ===== src/Shortcuts/Fields.antt =====
-- What the checks of the fields in src/pwshpy/domain/shortcuts.py accept.
use pwshpy.Base.{
  ap, ℕ, ◌≤◌, ◌≡◌, ◌≢◌, refl, subst, ◌∙◌, false, List, [], ◌∷◌, Option, none, some, ltb, length,
  All, Bool-cases, inl, inr, ◌⊎◌, ok, first_step, arith,
}
use pwshpy.Text.{Text, has_char}
use pwshpy.Shortcuts.{
  max_field, Value, text_value, bool_value, int_value, none_value, sequence, other_value, Field,
  forbidden_characters, without_forbidden, text_of, text, bounded, not_empty, optional,
}

-- A text without NUL, CR and LF.
abbrev pub IsClean : Text → Type 0
IsClean t = All (λ c. has_char c t ≡ false) forbidden_characters

without_forbidden-eq_ok :
    (name : Field) (t : Text) (cs : List ℕ) {u : Text}
    → without_forbidden name t cs ≡ ok u
    → (t ≡ u) × All (λ c. has_char c t ≡ false) cs
without_forbidden-eq_ok name t [] h = (cc, tt)
without_forbidden-eq_ok name t (c ∷ cs) h = elim (Bool-cases (has_char c t)) [
  | inl held ↦ absurd (cc (rw held at h))
  | inr clean ↦
      let (e, rest) = without_forbidden-eq_ok name t cs (rw clean at h) in (e, (clean, rest))
]

without_forbidden-clean :
    (name : Field) (t : Text) (cs : List ℕ)
    → All (λ c. has_char c t ≡ false) cs
    → without_forbidden name t cs ≡ ok t
without_forbidden-clean name t [] h = refl
without_forbidden-clean name t (c ∷ cs) (h, hs) = rw h (without_forbidden-clean name t cs hs)

pub text_of-eq_ok :
    (name : Field) (t : Text) {u : Text} → text_of name t ≡ ok u → (t ≡ u) × IsClean u
unfolding text_of
text_of-eq_ok name t h =
    let (e, clean) = without_forbidden-eq_ok name t forbidden_characters h in
    (e, subst IsClean e clean)

pub text_of-IsClean : (name : Field) (t : Text) → IsClean t → text_of name t ≡ ok t
unfolding text_of
text_of-IsClean name t h = without_forbidden-clean name t forbidden_characters h

pub text-eq_ok :
    (name : Field) (value : Value) {u : Text}
    → text name value ≡ ok u
    → (value ≡ text_value u) × IsClean u
text-eq_ok name (text_value t) h =
    let (e, clean) = text_of-eq_ok name t h in (ap text_value e, clean)
text-eq_ok name (bool_value b) h = absurd (cc)
text-eq_ok name (int_value n) h = absurd (cc)
text-eq_ok name none_value h = absurd (cc)
text-eq_ok name (sequence items) h = absurd (cc)
text-eq_ok name other_value h = absurd (cc)

pub bounded-eq_ok :
    (name : Field) (t : Text) (limit : ℕ) {u : Text}
    → bounded name t limit ≡ ok u
    → (t ≡ u) × (length t ≤ limit)
unfolding bounded
bounded-eq_ok name t limit h = elim (Bool-cases (ltb limit (length t))) [
  | inl long ↦ absurd (cc (rw long at h))
  | inr short ↦ (cc (rw short at h), ground arith)
]

pub bounded-le :
    (name : Field) (t : Text) (limit : ℕ) → length t ≤ limit → bounded name t limit ≡ ok t
unfolding bounded
bounded-le name t limit h = let short : ltb limit (length t) ≡ false = ground arith in rw short refl

-- An optional field that is kept: a text that is not empty, clean and within its limit.
abbrev pub IsField : Option Text → Type 0
IsField none = Unit {0}
IsField (some t) = (t ≢ []) × IsClean t × (length t ≤ max_field)

-- What an optional field keeps of what it is given: nothing of None or an empty text, else the text.
abbrev pub Keeps : Value → Option Text → Type 0
Keeps value none = (value ≡ none_value) ⊎ (value ≡ text_value [])
Keeps value (some t) = value ≡ text_value t

not_empty_field :
    (name : Field) (c : ℕ) (t : Text) {kept : Option Text}
    → not_empty name (text_value (c ∷ t)) ≡ ok kept
    → Keeps (text_value (c ∷ t)) kept × IsField kept
unfolding text_of
not_empty_field name c t {kept} h =
    let (u, e, h1) = first_step (text name (text_value (c ∷ t))) _ h in
    let (w, e1, h2) = first_step (bounded name u max_field) _ h1 in
    let (whole, clean) = without_forbidden-eq_ok name (c ∷ t) forbidden_characters e in
    let (same, short) = bounded-eq_ok name u max_field e1 in
    let is_kept : some w ≡ kept = cc in
    let all_same : (c ∷ t) ≡ w = whole ∙ same in
    subst (λ k. Keeps (text_value (c ∷ t)) k × IsField k) is_kept
      (
        ap text_value all_same,
        (
          λ z. absurd (cc (all_same, z)),
          subst IsClean all_same clean,
          subst (λ z. length z ≤ max_field) same short,
        ),
      )

-- An optional field that is accepted keeps what it is given, and is as it has to be.
pub optional-IsField :
    (name : Field) (value : Value) {kept : Option Text}
    → optional name value ≡ ok kept
    → Keeps value kept × IsField kept
unfolding optional
optional-IsField name none_value {kept} h =
    let e : none ≡ kept = cc in subst (λ k. Keeps none_value k × IsField k) e (inl refl, tt)
optional-IsField name (text_value []) {kept} h =
    let e : none ≡ kept = cc in subst (λ k. Keeps (text_value []) k × IsField k) e (inr refl, tt)
optional-IsField name (text_value (c ∷ t)) h = not_empty_field name c t h
optional-IsField name (bool_value b) h = absurd (cc)
optional-IsField name (int_value n) h = absurd (cc)
optional-IsField name (sequence items) h = absurd (cc)
optional-IsField name other_value h = absurd (cc)

pub IsField-optional :
    (name : Field) (value : Value) (kept : Option Text)
    → Keeps value kept
    → IsField kept
    → optional name value ≡ ok kept
unfolding optional
IsField-optional name value none (inl e) h = rw e refl
IsField-optional name value none (inr e) h = rw e refl
IsField-optional name value (some []) e (h, clean, short) = absurd (h refl)
IsField-optional name value (some (c ∷ t)) e (h, clean, short) =
    rw e
      (rw (text_of-IsClean name (c ∷ t) clean) (rw (bounded-le name (c ∷ t) max_field short) refl))

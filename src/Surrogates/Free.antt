-- ===== src/Surrogates/Free.antt =====
-- `_free_name` of src/pwshpy/domain/surrogates.py finds a name that is not taken.
use pwshpy.Base.{
  ℕ, zero, suc, ◌+◌, ◌≤◌, ◌<◌, ◌≡◌, ◌≢◌, refl, sym, ap, ◌∙◌, true, false, ◌||◌, List, [], ◌∷◌, ◌++◌,
  some, length, length-append, if◌then◌else◌, Bool-cases, inl, inr, arith,
}
use pwshpy.Text.{Text, codes, text_eq, mem_text}
use pwshpy.Text.Laws.{text_eq→eq}
use pwshpy.Surrogates.Decimal.{decimal, decimal-injective}
use pwshpy.Surrogates.{suffixed, free_from, free_name}

append-injective : (xs : Text) {ys zs : Text} → xs ++ ys ≡ xs ++ zs → ys ≡ zs
append-injective [] e = e
append-injective (x ∷ xs) e = append-injective xs (cc)

suffixed-injective : (name : Text) (s t : ℕ) → suffixed name s ≡ suffixed name t → s ≡ t
unfolding suffixed
suffixed-injective name s t e =
    let tails = append-injective name e in
    decimal-injective s t (append-injective (codes "~") tails)

name-suffixed : (name : Text) (s : ℕ) → name ≢ suffixed name s
unfolding suffixed
name-suffixed name s e =
    let sum : length name + length (codes "~" ++ decimal s)
        ≡ length name + suc (length (decimal s)) =
      omega arith in
    let lengths : length name ≡ length name + suc (length (decimal s)) =
      ap length e ∙ (length-append name (codes "~" ++ decimal s) ∙ sum) in
    absurd (omega (arith, lengths))

-- The names that differ from one.
without : Text → List Text → List Text
without x [] = []
without x (t ∷ ts) = let rest = without x ts in if text_eq x t then rest else t ∷ rest

eq_false : (s t : Text) → s ≢ t → text_eq s t ≡ false
eq_false s t h = elim (Bool-cases (text_eq s t)) [
  | inl e ↦ absurd (h (text_eq→eq s t e))
  | inr e ↦ e
]

mem_text-without : (s x : Text) (ts : List Text) → s ≢ x → mem_text s (without x ts) ≡ mem_text s ts
unfolding without mem_text
mem_text-without s x [] h = refl
mem_text-without s x (t ∷ ts) h = elim (Bool-cases (text_eq x t)) [
  | inl e ↦
      let differs : text_eq s t ≡ false = eq_false s t (λ z. h (z ∙ sym (text_eq→eq x t e))) in
      rw (e, differs) (mem_text-without s x ts h)
  | inr e ↦ rw e (ap (λ b. text_eq s t || b) (mem_text-without s x ts h))
]

length-without-le : (x : Text) (ts : List Text) → length (without x ts) ≤ length ts
unfolding without
length-without-le x [] = omega arith
length-without-le x (t ∷ ts) = ground (arith, length-without-le x ts)

length-without-lt :
    (x : Text) (ts : List Text) → mem_text x ts ≡ true → length (without x ts) < length ts
unfolding without mem_text
length-without-lt x [] h = absurd (cc)
length-without-lt x (t ∷ ts) h = ground (arith, length-without-le x ts, length-without-lt x ts)

-- A name that none of the later candidates is can be given back.
free_from-without :
    (fuel : ℕ) (name : Text) (suffix : ℕ) (candidate : Text) (taken : List Text) (x : Text)
    → candidate ≢ x
    → ((s : ℕ) → suffix ≤ s → suffixed name s ≢ x)
    → free_from fuel name suffix candidate (without x taken)
      ≡ free_from fuel name suffix candidate taken
unfolding free_from
free_from-without zero name suffix candidate taken x h later = refl
free_from-without (suc fuel) name suffix candidate taken x h later =
    rw
      (
        mem_text-without candidate x taken h,
        free_from-without fuel name (suffix + 1) (suffixed name suffix) taken x
            (later suffix (omega arith)) (λ s le. later s (omega (arith, le))),
      )
      refl

free_from-ends :
    (fuel : ℕ) (name : Text) (suffix : ℕ) (candidate : Text) (taken : List Text)
    → length taken < fuel
    → ((s : ℕ) → suffix ≤ s → suffixed name s ≢ candidate)
    → (free : Text) × (free_from fuel name suffix candidate taken ≡ some free)
unfolding free_from
free_from-ends zero name suffix candidate taken h later = absurd (omega (arith, h))
free_from-ends (suc fuel) name suffix candidate taken h later =
    elim (Bool-cases (mem_text candidate taken)) [
      | inr free ↦ (candidate, rw free refl)
      | inl old ↦
          let fewer = length-without-lt candidate taken old in
          let (free, e) =
            free_from-ends fuel name (suffix + 1) (suffixed name suffix) (without candidate taken)
              (omega (arith, fewer, h))
              (λ s le same. absurd (omega (arith, le, suffixed-injective name s suffix same))) in
          let same =
            free_from-without fuel name (suffix + 1) (suffixed name suffix) taken candidate
              (later suffix (omega arith)) (λ s le. later s (omega (arith, le))) in
          (free, rw old (sym same ∙ e))
    ]

free_from-IsFree :
    (P : Text → Type 0) (fuel : ℕ) (name : Text) (suffix : ℕ) (candidate : Text) (taken : List Text)
    {free : Text}
    → P candidate
    → ((s : ℕ) → P (suffixed name s))
    → free_from fuel name suffix candidate taken ≡ some free
    → (mem_text free taken ≡ false) × P free
unfolding free_from
free_from-IsFree P zero name suffix candidate taken p ps h = absurd (cc)
free_from-IsFree P (suc fuel) name suffix candidate taken {free} p ps h =
    elim (Bool-cases (mem_text candidate taken)) [
      | inr new ↦ let e : candidate ≡ free = cc (rw new at h) in rw (← e) (new, p)
      | inl old ↦
          free_from-IsFree P fuel name (suffix + 1) (suffixed name suffix) taken (ps suffix) ps
            (rw old at h)
    ]

-- A name is found, and it is not taken; it is the name or the name with a suffix.
pub free_name-IsFree :
    (P : Text → Type 0) (name : Text) (taken : List Text)
    → P name
    → ((s : ℕ) → P (suffixed name s))
    → (free : Text) × (free_name name taken ≡ some free) × (mem_text free taken ≡ false) × P free
unfolding free_name
free_name-IsFree P name taken p ps =
    let (free, e) =
      free_from-ends (suc (length taken)) name 2 name taken (omega arith)
        (λ s le same. name-suffixed name s (sym same)) in
    let (new, q) = free_from-IsFree P (suc (length taken)) name 2 name taken p ps e in
    (free, e, new, q)

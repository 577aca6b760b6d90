-- ===== src/Surrogates/Names.antt =====
-- The dictionary of names that `repaired_key_names` of src/pwshpy/domain/surrogates.py fills.
use pwshpy.Base.{
  ℕ, zero, suc, ◌/◌, ◌%◌, ◌≡◌, refl, sym, ap, ◌∙◌, Bool, true, false, ◌||◌, List, [], ◌∷◌, ◌++◌,
  any, All, In, ltb, Bool-cases, inl, inr, arith,
}
use pwshpy.Text.{Text, codes, text_eq, mem_text}
use pwshpy.Text.Laws.{text_eq→eq, text_eq_refl}
use pwshpy.Surrogates.Decimal.{decimal, decimal_from, digit}
use pwshpy.Surrogates.{is_surrogate, replace_surrogates, suffixed, set_name}

-- A text without a lone surrogate.
abbrev pub IsValid : Text → Type 0
IsValid text = any is_surrogate text ≡ false

any-append : (s t : Text) → any is_surrogate (s ++ t) ≡ (any is_surrogate s || any is_surrogate t)
any-append [] t = refl
any-append (c ∷ s) t = ground (arith, any-append s t)

pub replace_surrogates-IsValid : (text : Text) → IsValid (replace_surrogates text)
unfolding replace_surrogates
replace_surrogates-IsValid [] = refl
replace_surrogates-IsValid (c ∷ text) = ground (arith, replace_surrogates-IsValid text)

decimal_from-IsValid : (fuel n : ℕ) → IsValid (decimal_from fuel n)
unfolding decimal_from
decimal_from-IsValid zero n = refl
decimal_from-IsValid (suc fuel) n = elim (Bool-cases (ltb n 10)) [
  | inl small ↦ rw small (ground arith)
  | inr large ↦
      rw
        (
          large,
          any-append (decimal_from fuel (n / 10)) (digit (n % 10) ∷ []),
          decimal_from-IsValid fuel (n / 10),
        )
        (ground arith)
]

pub suffixed-IsValid : (name : Text) (s : ℕ) → IsValid name → IsValid (suffixed name s)
unfolding suffixed decimal
suffixed-IsValid name s h =
    rw (any-append name (codes "~" ++ decimal s), h) (decimal_from-IsValid (suc s) s)

abbrev pub names : List (Text × Text) → List Text
names [] = []
names ((key, name) ∷ renamed) = name ∷ names renamed

abbrev pub originals : List (Text × Text) → List Text
originals [] = []
originals ((key, name) ∷ renamed) = key ∷ originals renamed

abbrev pub IsDistinct : List Text → Type 0
IsDistinct [] = Unit {0}
IsDistinct (n ∷ ns) = (mem_text n ns ≡ false) × IsDistinct ns

pub text_eq_sym : (s t : Text) → text_eq s t ≡ false → text_eq t s ≡ false
text_eq_sym s t h = elim (Bool-cases (text_eq t s)) [
  | inl e ↦ absurd (cc (ap (text_eq s) (text_eq→eq t s e), text_eq_refl s, h))
  | inr e ↦ e
]

pub or_false : (a b : Bool) → (a || b) ≡ false → (a ≡ false) × (b ≡ false)
or_false true b h = absurd (cc)
or_false false b h = (refl, h)

pub mem-set_name :
    (x key name : Text) (renamed : List (Text × Text))
    → mem_text x (names renamed) ≡ false
    → text_eq x name ≡ false
    → mem_text x (names (set_name key name renamed)) ≡ false
unfolding set_name mem_text
mem-set_name x key name [] h e = rw e refl
mem-set_name x key name ((k, n) ∷ renamed) h e =
    let (here, rest) = or_false (text_eq x n) (mem_text x (names renamed)) h in
    elim (Bool-cases (text_eq key k)) [
      | inl same ↦ rw (same, e) rest
      | inr other ↦ rw (other, here) (mem-set_name x key name renamed rest e)
    ]

pub set_name-IsDistinct :
    (key name : Text) (renamed : List (Text × Text))
    → IsDistinct (names renamed)
    → mem_text name (names renamed) ≡ false
    → IsDistinct (names (set_name key name renamed))
unfolding set_name mem_text
set_name-IsDistinct key name [] d h = (refl, tt)
set_name-IsDistinct key name ((k, n) ∷ renamed) (new, d) h =
    let (here, rest) = or_false (text_eq name n) (mem_text name (names renamed)) h in
    elim (Bool-cases (text_eq key k)) [
      | inl same ↦ rw same (rest, d)
      | inr other ↦ rw other (
        mem-set_name n key name renamed new (text_eq_sym name n here),
        set_name-IsDistinct key name renamed d rest,
      )
    ]

pub set_name-All :
    (P : Text → Type 0) (key name : Text) (renamed : List (Text × Text))
    → P name
    → All P (names renamed)
    → All P (names (set_name key name renamed))
unfolding set_name
set_name-All P key name [] p ps = (p, tt)
set_name-All P key name ((k, n) ∷ renamed) p (q, ps) = elim (Bool-cases (text_eq key k)) [
  | inl same ↦ rw same (p, ps)
  | inr other ↦ rw other (q, set_name-All P key name renamed p ps)
]

pub set_name-has :
    (key name : Text) (renamed : List (Text × Text))
    → In key (originals (set_name key name renamed))
unfolding set_name
set_name-has key name [] = inl refl
set_name-has key name ((k, n) ∷ renamed) = elim (Bool-cases (text_eq key k)) [
  | inl same ↦ rw same (inl refl)
  | inr other ↦ rw other (inr (set_name-has key name renamed))
]

pub set_name-keeps :
    (key name t : Text) (renamed : List (Text × Text))
    → In t (originals renamed)
    → In t (originals (set_name key name renamed))
unfolding set_name
set_name-keeps key name t [] m = absurd m
set_name-keeps key name t ((k, n) ∷ renamed) m = elim (Bool-cases (text_eq key k)) [
  | inl same ↦ rw same (elim m [ inl e ↦ inl (e ∙ sym (text_eq→eq key k same)) | inr i ↦ inr i ])
  | inr other ↦
      rw other (elim m [ inl e ↦ inl e | inr i ↦ inr (set_name-keeps key name t renamed i) ])
]

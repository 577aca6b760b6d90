-- ===== src/Scheduling/Identity/Number.antt =====
-- A uid has one spelling.
use pwshpy.Base.{
  ℕ, ◌+◌, ◌-◌, ◌*◌, ◌≤◌, ◌≡◌, refl, ap, sym, ◌∙◌, true, ◌&&◌, [], ◌∷◌, ◌++◌, append-nil, ◌==◌, all,
  length, arith, Bool-cases, inl, inr, ◌⊎◌, leb→le, &&-true,
}
use pwshpy.Text.{Text, codes}
use pwshpy.Scheduling.Identity.{is_digit, is_canonical, int_from, int, uid_max, is_uid}

-- The digits from the last one on.
abbrev reversed : Text → Text → Text
reversed [] r = r
reversed (c ∷ s) r = reversed s (c ∷ r)

reversed-reversed : (s r q : Text) → reversed (reversed s r) q ≡ reversed r (s ++ q)
reversed-reversed [] r q = refl
reversed-reversed (c ∷ s) r q = reversed-reversed s (c ∷ r) q

reversed-injective : (s t : Text) → reversed s [] ≡ reversed t [] → s ≡ t
reversed-injective s t h =
    sym (append-nil s)
    ∙ sym (reversed-reversed s [] [])
    ∙ ap (λ r. reversed r []) h
    ∙ reversed-reversed t [] []
    ∙ append-nil t

abbrev value : Text → ℕ
value [] = 0
value (c ∷ r) = value r * 10 + (c - b'0')

int_from-value : (s r : Text) → int_from (value r) s ≡ value (reversed s r)
unfolding int_from
int_from-value [] r = refl
int_from-value (c ∷ s) r = int_from-value s (c ∷ r)

abbrev IsDigit : ℕ → Type 0
IsDigit c = (b'0' ≤ c) × (c ≤ b'9')

-- Digits from the last one on, of which the first one is no zero.
abbrev IsNumeral : Text → Type 0
IsNumeral [] = Unit
IsNumeral (c ∷ []) = (b'1' ≤ c) × (c ≤ b'9')
IsNumeral (c ∷ d ∷ r) = IsDigit c × IsNumeral (d ∷ r)

value-positive : (c : ℕ) (r : Text) → IsNumeral (c ∷ r) → 1 ≤ value (c ∷ r)
value-positive c [] h = omega arith
value-positive c (d ∷ r) h = omega (arith, value-positive d r h.1)

numeral-IsDigit : (c : ℕ) (r : Text) → IsNumeral (c ∷ r) → IsDigit c
numeral-IsDigit c [] h = (omega arith, h.1)
numeral-IsDigit c (d ∷ r) h = h.0

IsNumeral-rest : (c : ℕ) (r : Text) → IsNumeral (c ∷ r) → IsNumeral r
IsNumeral-rest c [] h = tt
IsNumeral-rest c (d ∷ r) h = h.1

value-injective : (r q : Text) → IsNumeral r → IsNumeral q → value r ≡ value q → r ≡ q
value-injective [] [] h k e = refl
value-injective [] (d ∷ q) h k e = absurd (omega (arith, value-positive d q k))
value-injective (c ∷ r) [] h k e = absurd (omega (arith, value-positive c r h))
value-injective (c ∷ r) (d ∷ q) h k e =
    let hc = numeral-IsDigit c r h in
    let hd = numeral-IsDigit d q k in
    let digits : c ≡ d = omega arith in
    let rests : value r ≡ value q = omega arith in
    let tails = value-injective r q (IsNumeral-rest c r h) (IsNumeral-rest d q k) rests in
    cc (digits, tails)

reversed-IsNumeral :
    (s : Text) (d : ℕ) (r : Text)
    → all is_digit s ≡ true
    → IsNumeral (d ∷ r)
    → IsNumeral (reversed s (d ∷ r))
reversed-IsNumeral [] d r h k = k
reversed-IsNumeral (c ∷ s) d r h k = reversed-IsNumeral s c (d ∷ r) (ground arith) (digit, k)
  where
    digit : IsDigit c
    digit = (ground arith, ground arith)

-- A canonical text is a zero, or a numeral.
canonical-cases :
    (t : Text)
    → is_canonical t ≡ true
    → (t ≡ codes "0") ⊎ (IsNumeral (reversed t []) × (1 ≤ value (reversed t [])))
unfolding is_canonical
canonical-cases [] h = cc
canonical-cases (c ∷ s) h = elim (Bool-cases (c == b'0' && length s == 0)) [
  | inl zero_digit ↦ inl (is_zero c s zero_digit)
  | inr no_zero ↦
      let n = reversed-IsNumeral s c [] (ground arith) (ground arith, ground arith) in
      inr (n, positive (reversed s (c ∷ [])) n (nonempty s c []))
]
  where
    is_zero : (c : ℕ) (s : Text) → (c == b'0' && length s == 0) ≡ true → c ∷ s ≡ codes "0"
    is_zero c [] h = ap (λ d. d ∷ []) (ground arith)
    is_zero c (d ∷ s) h = absurd (ground arith)

    nonempty : (s : Text) (c : ℕ) (r : Text) → 1 ≤ length (reversed s (c ∷ r))
    nonempty [] c r = omega arith
    nonempty (d ∷ s) c r = nonempty s d (c ∷ r)

    positive : (r : Text) → IsNumeral r → 1 ≤ length r → 1 ≤ value r
    positive [] h k = absurd (omega arith)
    positive (c ∷ r) h k = value-positive c r h

canonical-injective :
    (s t : Text) → is_canonical s ≡ true → is_canonical t ≡ true → int s ≡ int t → s ≡ t
canonical-injective s t h k e =
    let values : value (reversed s []) ≡ value (reversed t []) =
      sym (int_from-value s []) ∙ e ∙ int_from-value t [] in
    elim (canonical-cases s h) [
      | inl s0 ↦ elim (canonical-cases t k) [
        | inl t0 ↦ s0 ∙ sym t0
        | inr (n, p) ↦ absurd (omega (arith, values, p, ap (λ u. value (reversed u [])) s0))
      ]
      | inr (m, p) ↦ elim (canonical-cases t k) [
        | inl t0 ↦ absurd (omega (arith, values, p, ap (λ u. value (reversed u [])) t0))
        | inr (n, q) ↦ reversed-injective s t (value-injective _ _ m n values)
      ]
    ]

-- A text that is accepted as a uid stands for a number that 32 bits hold, and two texts that stand
-- for the same number are the same text.
pub is_uid-injective :
    (s t : Text) → is_uid s ≡ true → is_uid t ≡ true → (int s ≤ uid_max) × (int s ≡ int t → s ≡ t)
unfolding is_uid
is_uid-injective s t h k =
    let (cs, ms) = &&-true (is_canonical s) _ h in
    let (ct, mt) = &&-true (is_canonical t) _ k in
    (leb→le (int s) uid_max ms, canonical-injective s t cs ct)

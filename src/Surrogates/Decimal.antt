-- ===== src/Surrogates/Decimal.antt =====
-- `str` of a number.
use pwshpy.Base.{
  ℕ, zero, suc, ◌+◌, ◌*◌, ◌-◌, ◌/◌, ◌%◌, ◌≤◌, ◌<◌, ◌≡◌, refl, sym, ap, ◌∙◌, [], ◌∷◌, ◌++◌, ltb,
  if◌then◌else◌, Bool-cases, inl, inr, arith,
}
use pwshpy.Text.{Text}

abbrev pub digit : ℕ → ℕ
digit d = d + b'0'

-- On fuel: a number has no more digits than its size.
unfoldable pub decimal_from : ℕ → ℕ → Text
decimal_from zero n = []
decimal_from (suc fuel) n =
    let front = decimal_from fuel (n / 10) in
    if ltb n 10 then digit n ∷ [] else front ++ digit (n % 10) ∷ []

unfoldable pub decimal : ℕ → Text
unfolding decimal_from
decimal n = decimal_from (suc n) n

read_from : ℕ → Text → ℕ
read_from value [] = value
read_from value (c ∷ s) = read_from (value * 10 + (c - b'0')) s

read_from-append :
    (value : ℕ) (s : Text) (c : ℕ)
    → read_from value (s ++ c ∷ []) ≡ read_from value s * 10 + (c - b'0')
unfolding read_from
read_from-append value [] c = refl
read_from-append value (d ∷ s) c = read_from-append (value * 10 + (d - b'0')) s c

read_from-decimal_from : (fuel n : ℕ) → n < fuel → read_from 0 (decimal_from fuel n) ≡ n
unfolding decimal_from
read_from-decimal_from zero n h = absurd (omega (arith, h))
read_from-decimal_from (suc fuel) n h = elim (Bool-cases (ltb n 10)) [
  | inl small ↦ rw small (unfold read_from in omega arith)
  | inr large ↦
      let ten : 10 ≤ n = ground arith in
      rw
        (
          large,
          read_from-append 0 (decimal_from fuel (n / 10)) (digit (n % 10)),
          read_from-decimal_from fuel (n / 10) (omega (arith, h, ten)),
        )
        (omega arith)
]

-- Different numbers are written differently.
pub decimal-injective : (n m : ℕ) → decimal n ≡ decimal m → n ≡ m
unfolding decimal
decimal-injective n m e =
    sym (read_from-decimal_from (suc n) n (omega arith))
    ∙ ap (read_from 0) e
    ∙ read_from-decimal_from (suc m) m (omega arith)

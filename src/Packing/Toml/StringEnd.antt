-- ===== src/Packing/Toml/StringEnd.antt =====
-- Where a string ends.
use pwshpy.Base.{
  ℕ, zero, suc, ◌+◌, ◌≤◌, ◌<◌, ◌≡◌, refl, ap, sym, subst, Bool, true, false, ◌&&◌, [], ◌∷◌, arith,
  ◌==◌, leb, leb→le, if◌then◌else◌, inl, inr, ◌⊎◌, length, length-drop, drop,
}
use pwshpy.Text.{Text}
use pwshpy.Packing.Toml.{multi_line_delimiter, run_length, string_end_from, string_end, first_char}

-- A place in the line and the delimiter that is open there: none, or the one that was open.
abbrev pub IsStringEnd : ℕ → ℕ → Text → ℕ × Text → Type 0
IsStringEnd start line_len quote r =
    (start < r.0) × (r.0 ≤ line_len) × ((r.1 ≡ []) ⊎ ((r.1 ≡ quote) × (r.0 ≡ line_len)))

run_length-le : (mark : ℕ) (s : Text) → run_length mark s ≤ length s
unfolding run_length
run_length-le mark [] = omega arith
run_length-le mark (c ∷ s) = ground (arith, run_length-le mark s)

-- The branches of one round: what holds at each end holds of the result.
round {ℓ} :
    {A : Type 0} (P : A → Type ℓ) (escape mark one long : Bool) {x y rest : A}
    → P x
    → (long ≡ true → P y)
    → P rest
    → P (
        if escape
        then rest
        else if mark
        then (if one then x else if long then y else rest)
        else rest)
round P true mark one long px py pr = pr
round P false false one long px py pr = pr
round P false true true long px py pr = px
round P false true false true px py pr = py refl
round P false true false false px py pr = pr

-- What the loop returns from a place in the line.
abbrev IsEnd : ℕ → ℕ → Text → ℕ × Text → Type 0
IsEnd index line_len quote r =
    (index ≤ r.0) × (r.0 ≤ line_len) × ((r.1 ≡ []) ⊎ ((r.1 ≡ quote) × (r.0 ≡ line_len)))

IsEnd-earlier :
    {index line_len : ℕ} {quote : Text} (r : ℕ × Text)
    → IsEnd (index + 1) line_len quote r
    → IsStringEnd index line_len quote r
IsEnd-earlier r (low, high, o) = (omega arith, high, o)

module _ (mark : ℕ) (quote : Text) (line_len : ℕ) where
  -- One round at a character, if the rest of the loop is as it should be.
  IsStringEnd-round :
      (index c : ℕ) (s : Text)
      → index + length (c ∷ s) ≡ line_len
      → ((skip : ℕ)
          → IsEnd
              (index + 1)
              line_len
              quote
              (string_end_from mark quote line_len skip (index + 1) s))
      → IsStringEnd index line_len quote (string_end_from mark quote line_len zero index (c ∷ s))
  unfolding string_end_from
  IsStringEnd-round index c s e rest =
      let run = run_length mark (c ∷ s) in
      round (IsStringEnd index line_len quote) (mark == b'"' && c == b'\\') (c == mark)
        (length quote == 1) (leb multi_line_delimiter run) (omega arith, omega arith, inl refl)
        (λ long. (
          omega (arith, leb→le multi_line_delimiter run long),
          omega (arith, run_length-le mark (c ∷ s)),
          inl refl,
        ))
        (IsEnd-earlier _ (rest _))

  string_end_from-IsEnd :
      (skip index : ℕ) (s : Text)
      → index + length s ≡ line_len
      → IsEnd index line_len quote (string_end_from mark quote line_len skip index s)
  string_end_from-IsEnd skip index [] e =
      unfold string_end_from in (omega arith, omega arith, inr (refl, refl))
  string_end_from-IsEnd (suc k) index (c ∷ s) e =
      earlier (string_end_from-IsEnd k (index + 1) s (omega arith))
    where
      earlier :
          IsEnd (index + 1) line_len quote (string_end_from mark quote line_len k (index + 1) s)
          → IsEnd index line_len quote (string_end_from mark quote line_len (suc k) index (c ∷ s))
      earlier (low, high, o) = unfold string_end_from in (omega arith, high, o)
  string_end_from-IsEnd zero index (c ∷ s) e =
      let (low, high, o) =
        IsStringEnd-round index c s e
          (λ skip. string_end_from-IsEnd skip (index + 1) s (omega arith)) in
      (omega arith, high, o)

string_end_eq :
    (line : Text) (start : ℕ) (quote : Text)
    → string_end line start quote
      ≡ string_end_from (first_char quote) quote (length line) 0 start (drop start line)
string_end_eq line start quote = unfold string_end in refl

drop-eq_cons : (n : ℕ) (t : Text) → n < length t → (c : ℕ) × (s : Text) × (drop n t ≡ c ∷ s)
drop-eq_cons zero [] h = absurd (omega arith)
drop-eq_cons zero (c ∷ t) h = (c, t, refl)
drop-eq_cons (suc n) [] h = absurd (omega arith)
drop-eq_cons (suc n) (c ∷ t) h = drop-eq_cons n t (omega arith)

-- From a place inside the line, the string's end lies behind that place and not behind the line's
-- end; the string is then closed, or it is still open and the line has ended.
pub string_end-IsStringEnd :
    (line : Text) (start : ℕ) (quote : Text)
    → start < length line
    → IsStringEnd start (length line) quote (string_end line start quote)
string_end-IsStringEnd line start quote h =
    let (c, s, e) = drop-eq_cons start line h in
    let fits : start + length (c ∷ s) ≡ length line =
      omega (arith, ap length e, length-drop start line) in
    rw string_end_eq (
      subst
        (λ t.
          IsStringEnd start (length line) quote
            (string_end_from (first_char quote) quote (length line) 0 start t))
        (sym e)
        (IsStringEnd-round (first_char quote) quote (length line) start c s fits (λ skip.
          string_end_from-IsEnd (first_char quote) quote (length line) skip (start + 1) s
            (omega arith))))

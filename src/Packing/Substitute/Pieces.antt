-- ===== src/Packing/Substitute/Pieces.antt =====
-- A template described as literal text and placeholders, and what filling it must give.
use pwshpy.Base.{
  ℕ, zero, suc, ◌-◌, ◌≡◌, ◌≢◌, refl, ap, ap₂, sym, ◌∙◌, List, [], ◌∷◌, ◌++◌, append_assoc, Bool,
  false, ◌&&◌, Option, none, some, Option-cases, arith, Bool-cases, inl, inr, if◌then◌else◌, ◌==◌,
  length, All,
}
use pwshpy.Text.{Text, text_eq, starts_with}
use pwshpy.Text.Laws.{Lacks, text_eq→eq}
use pwshpy.Packing.Substitute.{
  at, token_of, replacements_of, Replacements, match_token, substitute_from, substitute,
}

pub data Piece : Type 0 where
  literal : Text → Piece
  placeholder : Text → Piece

-- The value of a name.
abbrev pub value_of : List (Text × Text) → Text → Option Text
value_of [] name = none
value_of ((n, v) ∷ values) name = if text_eq n name then some v else value_of values name

-- No two `@` in a row, and none at the end.
abbrev pub IsPlain : Text → Type 0
IsPlain [] = Unit
IsPlain (c ∷ []) = c ≢ at
IsPlain (c ∷ d ∷ t) = (¬ ((c ≡ at) × (d ≡ at))) × IsPlain (d ∷ t)

abbrev pub template_of : List Piece → Text
template_of [] = []
template_of (literal t ∷ ps) = t ++ template_of ps
template_of (placeholder name ∷ ps) = token_of name ++ template_of ps

abbrev pub or_none : Option Text → Text
or_none none = []
or_none (some v) = v

abbrev pub filled : List (Text × Text) → List Piece → Text
filled values [] = []
filled values (literal t ∷ ps) = t ++ filled values ps
filled values (placeholder name ∷ ps) = or_none (value_of values name) ++ filled values ps

-- Literals are plain, and every placeholder has a value.
abbrev pub IsFillable : List (Text × Text) → List Piece → Type 0
IsFillable values [] = Unit
IsFillable values (literal t ∷ ps) = IsPlain t × IsFillable values ps
IsFillable values (placeholder name ∷ ps) =
    (Lacks at name × (value_of values name ≢ none)) × IsFillable values ps

abbrev pub NamesLackAt : List (Text × Text) → Type 0
NamesLackAt = All (λ v. Lacks at v.0)

-- A name with `@@` behind it is found only where it stands.
starts_with-name :
    (n m rest : Text)
    → Lacks at n
    → Lacks at m
    → starts_with (n ++ at ∷ at ∷ []) (m ++ at ∷ at ∷ rest) ≡ text_eq n m
unfolding starts_with text_eq
starts_with-name [] [] rest hn hm = refl
starts_with-name [] (d ∷ m) rest hn hm = ground arith
starts_with-name (c ∷ n) [] rest hn hm = ground arith
starts_with-name (c ∷ n) (d ∷ m) rest hn hm =
    ap (λ b. (c == d) && b) (starts_with-name n m rest hn.1 hm.1)

starts_with-token_of :
    (n m rest : Text)
    → Lacks at n
    → Lacks at m
    → starts_with (token_of n) (token_of m ++ rest) ≡ text_eq n m
starts_with-token_of n m rest hn hm =
    rw append_assoc (unfold starts_with in starts_with-name n m rest hn hm)

match_step :
    (token value : Text) (reps : Replacements) (t : Text)
    → match_token ((token, value) ∷ reps) t
      ≡ (if starts_with token t then some (token, value) else match_token reps t)
match_step token value reps t = unfold match_token in refl

match_token-value_of :
    (values : List (Text × Text)) (name v rest : Text)
    → NamesLackAt values
    → Lacks at name
    → value_of values name ≡ some v
    → match_token (replacements_of values) (token_of name ++ rest) ≡ some (token_of name, v)
match_token-value_of [] name v rest hs h e = cc
match_token-value_of ((n, w) ∷ values) name v rest hs h e =
    rw (match_step, starts_with-token_of n name rest hs.0 h)
      (elim (Bool-cases (text_eq n name)) [
        | inl same ↦ rw same (cc (text_eq→eq n name same, rw same at e))
        | inr other ↦ rw other (match_token-value_of values name v rest hs.1 h (rw other at e))
      ])

starts_at : Text → Bool
starts_at [] = false
starts_at (c ∷ []) = false
starts_at (c ∷ d ∷ t) = c == at && d == at

starts_with-starts_at :
    (name t : Text) → starts_at t ≡ false → starts_with (token_of name) t ≡ false
unfolding starts_with starts_at
starts_with-starts_at name [] h = refl
starts_with-starts_at name (c ∷ []) h = ground arith
starts_with-starts_at name (c ∷ d ∷ t) h = ground arith

match_token-eq_none :
    (values : List (Text × Text)) (t : Text)
    → starts_at t ≡ false
    → match_token (replacements_of values) t ≡ none
match_token-eq_none [] t h = unfold match_token in refl
match_token-eq_none ((n, w) ∷ values) t h =
    rw (match_step, starts_with-starts_at n t h) (match_token-eq_none values t h)

module _ (reps : Replacements) (c : ℕ) (t : Text) where
  substitute-none :
      match_token reps (c ∷ t) ≡ none
      → substitute_from reps zero (c ∷ t) ≡ c ∷ substitute_from reps zero t
  unfolding substitute_from
  substitute-none h = ground arith

  substitute-some :
      (token value : Text)
      → match_token reps (c ∷ t) ≡ some (token, value)
      → substitute_from reps zero (c ∷ t) ≡ value ++ substitute_from reps (length token - 1) t
  unfolding substitute_from
  substitute-some token value h = ground arith

substitute-skip :
    (reps : Replacements) (s rest : Text)
    → substitute_from reps (length s) (s ++ rest) ≡ substitute_from reps zero rest
substitute-skip reps [] rest = refl
substitute-skip reps (c ∷ s) rest = skip_step (substitute-skip reps s rest)
  where
    skip_step :
        substitute_from reps (length s) (s ++ rest) ≡ substitute_from reps zero rest
        → substitute_from reps (suc (length s)) (c ∷ (s ++ rest)) ≡ substitute_from reps zero rest
    skip_step h = unfold substitute_from in h

module _ (values : List (Text × Text)) where
  substitute-copy :
      (c : ℕ) (t : Text)
      → starts_at (c ∷ t) ≡ false
      → substitute_from (replacements_of values) zero (c ∷ t)
        ≡ c ∷ substitute_from (replacements_of values) zero t
  substitute-copy c t h = substitute-none _ c t (match_token-eq_none values (c ∷ t) h)

  substitute-literal :
      (lit rest : Text)
      → IsPlain lit
      → substitute_from (replacements_of values) zero (lit ++ rest)
        ≡ lit ++ substitute_from (replacements_of values) zero rest
  substitute-literal [] rest h = refl
  substitute-literal (c ∷ []) [] h = substitute-copy c [] (unfold starts_at in refl)
  substitute-literal (c ∷ []) (d ∷ rest) h =
      substitute-copy c (d ∷ rest) (unfold starts_at in ground arith)
  substitute-literal (c ∷ d ∷ lit) rest h =
      substitute-copy c (d ∷ (lit ++ rest)) (unfold starts_at in ground arith)
      ∙ ap (λ t. c ∷ t) (substitute-literal (d ∷ lit) rest h.1)

  substitute-token_of :
      (name v rest : Text)
      → match_token (replacements_of values) (token_of name ++ rest) ≡ some (token_of name, v)
      → substitute_from (replacements_of values) zero (token_of name ++ rest)
        ≡ v ++ substitute_from (replacements_of values) zero rest
  substitute-token_of name v rest h =
      let tail : Text = at ∷ (name ++ at ∷ at ∷ []) in
      let passed : length (token_of name) - 1 ≡ length tail = omega arith in
      substitute-some (replacements_of values) at (tail ++ rest) (token_of name) v h
      ∙ ap (λ n. v ++ substitute_from (replacements_of values) n (tail ++ rest)) passed
      ∙ ap (λ t. v ++ t) (substitute-skip (replacements_of values) tail rest)

  substitute-filled :
      (ps : List Piece)
      → NamesLackAt values
      → IsFillable values ps
      → substitute_from (replacements_of values) zero (template_of ps) ≡ filled values ps
  substitute-filled [] hs h = unfold substitute_from in refl
  substitute-filled (literal t ∷ ps) hs h =
      substitute-literal t (template_of ps) h.0 ∙ ap (λ r. t ++ r) (substitute-filled ps hs h.1)
  substitute-filled (placeholder name ∷ ps) hs ((lacks, has), h) =
      elim (Option-cases (value_of values name)) [
        | inl missing ↦ absurd (has missing)
        | inr (v, e) ↦
            substitute-token_of name v (template_of ps)
              (match_token-value_of values name v _ hs lacks e)
            ∙ ap₂ (λ x y. x ++ y) (sym (ap or_none e)) (substitute-filled ps hs h)
      ]

-- A template of literal texts and placeholders is filled piece by piece: each literal stays as it
-- is and each placeholder becomes its value, which is not scanned again. The names of placeholders
-- hold no `@`, no literal holds two `@` in a row or ends with one, and every placeholder has a
-- value.
pub substitute-template_of :
    (values : List (Text × Text)) (ps : List Piece)
    → NamesLackAt values
    → IsFillable values ps
    → substitute (template_of ps) (replacements_of values) ≡ filled values ps
substitute-template_of values ps hs h = unfold substitute in substitute-filled values ps hs h

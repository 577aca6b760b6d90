-- ===== src/Packing/PowerShell/RoundTrip.antt =====
-- PowerShell reads back what the packer quotes, and so does `unquote_powershell_literal`.
use pwshpy.Base.{
  ℕ, true, false, ◌≡◌, refl, ap, subst, List, [], ◌∷◌, ◌++◌, append_assoc, some, arith, flat_map,
  take, drop, length, length-append, append-nil, ◌-◌,
}
use pwshpy.Text.{Text, join}
use pwshpy.Packing.PowerShell.{
  is_powershell_quote, double_quote, powershell_literal, powershell_string_array,
  unquote_powershell_literal,
}
use pwshpy.Packing.PowerShell.Reader.{
  ends_string, cons_value, read_body, read_literal, ReadsArray, last, more,
}

-- What may stand behind a literal: nothing, or a character that is no quote.
abbrev pub EndsLiteral : Text → Type 0
EndsLiteral [] = Unit
EndsLiteral (c ∷ s) = ends_string c ≡ false

read_body-quote : (rest : Text) → EndsLiteral rest → read_body (b'\'' ∷ rest) ≡ some ([], rest)
unfolding read_body ends_string
read_body-quote [] h = refl
read_body-quote (c ∷ s) h = ground arith

ends_string-eq : (c : ℕ) → ends_string c ≡ is_powershell_quote c
unfolding ends_string is_powershell_quote
ends_string-eq c = ground arith

quote-ends : ends_string b'\'' ≡ true
unfolding ends_string
quote-ends = refl

read_body-double_quote :
    (c : ℕ) (v rest : Text)
    → read_body (double_quote c ++ (v ++ b'\'' ∷ rest))
      ≡ cons_value c (read_body (v ++ b'\'' ∷ rest))
unfolding double_quote read_body
read_body-double_quote c [] rest = ground (arith, ends_string-eq c, quote-ends)
read_body-double_quote c (d ∷ v) rest = ground (arith, ends_string-eq c, quote-ends)

read_body-flat_map :
    (v rest : Text)
    → EndsLiteral rest
    → read_body (flat_map double_quote v ++ b'\'' ∷ rest) ≡ some (v, rest)
read_body-flat_map [] rest h = read_body-quote rest h
read_body-flat_map (c ∷ v) rest h =
    rw (append_assoc, read_body-double_quote, read_body-flat_map v rest h)

-- PowerShell reads a quoted value back as it was, whatever it holds, and goes on right behind it,
-- unless a quote character follows.
pub read_literal-powershell_literal :
    (v rest : Text)
    → EndsLiteral rest
    → read_literal (powershell_literal v ++ rest) ≡ some (v, rest)
unfolding read_literal powershell_literal ends_string
read_literal-powershell_literal v rest h = rw append_assoc (read_body-flat_map v rest h)

join-cons₂ :
    (sep p q : Text) (ps : List Text) → join sep (p ∷ q ∷ ps) ≡ p ++ (sep ++ join sep (q ∷ ps))
unfolding join
join-cons₂ sep p q ps = refl

array-ReadsArray :
    (v : Text) (vs : List Text) → ReadsArray (powershell_string_array (v ∷ vs)) (v ∷ vs)
unfolding powershell_string_array
array-ReadsArray v [] =
    last (unfold join in rw append-nil at (read_literal-powershell_literal v [] tt))
array-ReadsArray v (w ∷ vs) =
    more (rw join-cons₂ (read_literal-powershell_literal v (b',' ∷ _) (unfold ends_string in refl)))
      (array-ReadsArray w vs)

ReadsArray-unique : {t : Text} {vs ws : List Text} → ReadsArray t vs → ReadsArray t ws → vs ≡ ws
ReadsArray-unique (last e) (last f) = cc (e, f)
ReadsArray-unique (last e) (more f r) = cc (e, f)
ReadsArray-unique (more e r) (last f) = cc (e, f)
ReadsArray-unique {vs = v ∷ vs} {ws = w ∷ ws} (more {s = s} e r) (more {s = s'} f q) =
    let tails : s' ≡ s = cc (e, f) in
    let rest : vs ≡ ws = ReadsArray-unique r (subst (λ z. ReadsArray z ws) tails q) in
    cc (e, f, rest)

-- A list of one value or more is written so that PowerShell reads those values and no others.
pub ReadsArray-powershell_string_array :
    (v : Text) (vs : List Text)
    → ReadsArray (powershell_string_array (v ∷ vs)) (v ∷ vs)
      × ((ws : List Text) → ReadsArray (powershell_string_array (v ∷ vs)) ws → ws ≡ v ∷ vs)
ReadsArray-powershell_string_array v vs =
    (array-ReadsArray v vs, λ ws r. ReadsArray-unique r (array-ReadsArray v vs))

-- `body[1:-1]`
abbrev pub inner : Text → Text
inner t = take (length t - 2) (drop 1 t)

take-append : (s t : Text) → take (length s) (s ++ t) ≡ s
take-append [] t = refl
take-append (c ∷ s) t = ap (λ r. c ∷ r) (take-append s t)

inner-powershell_literal : (v : Text) → inner (powershell_literal v) ≡ flat_map double_quote v
unfolding powershell_literal
inner-powershell_literal v =
    let e : length (powershell_literal v) - 2 ≡ length (flat_map double_quote v) =
      omega (arith, length-append (flat_map double_quote v) (b'\'' ∷ [])) in
    rw e (take-append (flat_map double_quote v) (b'\'' ∷ []))

unquote-double_quote :
    (c : ℕ) (s : Text)
    → unquote_powershell_literal (double_quote c ++ s) ≡ c ∷ unquote_powershell_literal s
unfolding unquote_powershell_literal double_quote
unquote-double_quote c [] = ground arith
unquote-double_quote c (d ∷ s) = ground arith

unquote-flat_map : (v : Text) → unquote_powershell_literal (flat_map double_quote v) ≡ v
unquote-flat_map [] = unfold unquote_powershell_literal in refl
unquote-flat_map (c ∷ v) = rw unquote-double_quote (ap (λ t. c ∷ t) (unquote-flat_map v))

-- `unquote_powershell_literal` undoes `powershell_literal` on the text between the outer quotes.
pub unquote_powershell_literal-powershell_literal :
    (v : Text) → unquote_powershell_literal (inner (powershell_literal v)) ≡ v
unquote_powershell_literal-powershell_literal v = rw inner-powershell_literal (unquote-flat_map v)

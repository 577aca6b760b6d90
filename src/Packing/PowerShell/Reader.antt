-- ===== src/Packing/PowerShell/Reader.antt =====
-- What a single-quoted PowerShell literal means, described apart from the code that writes it.
use pwshpy.Base.{
  ℕ, Bool, ◌||◌, ◌&&◌, ◌==◌, leb, ◌≡◌, List, [], ◌∷◌, Option, none, some, if◌then◌else◌,
}
use pwshpy.Text.{Text}

-- The characters that PowerShell takes for a single quote: the ASCII one, and U+2018 to U+201B.
unfoldable pub ends_string : ℕ → Bool
ends_string c = c == b'\'' || leb 0x2018 c && leb c 0x201b

abbrev pub cons_value : ℕ → Option (Text × Text) → Option (Text × Text)
cons_value c none = none
cons_value c (some (v, rest)) = some (c ∷ v, rest)

-- Behind the opening quote: two quote characters in a row stand for the second one, and a quote
-- character alone ends the literal. The result is the value and the text behind the literal.
unfoldable pub read_body : Text → Option (Text × Text)
read_body [] = none
read_body (c ∷ []) = if ends_string c then some ([], []) else none
read_body (c ∷ d ∷ s) =
    let in_literal = cons_value c (read_body (d ∷ s)) in
    let doubled = cons_value d (read_body s) in
    if ends_string c then (if ends_string d then doubled else some ([], d ∷ s)) else in_literal

unfoldable pub read_literal : Text → Option (Text × Text)
unfolding read_body
read_literal [] = none
read_literal (c ∷ s) = if ends_string c then read_body s else none

-- A list of literals with a comma between each two.
pub data ReadsArray : Text → List Text → Type 0 where
  last : {t v : Text} → read_literal t ≡ some (v, []) → ReadsArray t (v ∷ [])
  more :
      {t v s : Text} {vs : List Text}
      → read_literal t ≡ some (v, b',' ∷ s)
      → ReadsArray s vs
      → ReadsArray t (v ∷ vs)

-- ===== src/Text/Lines.antt =====
-- `str.splitlines`.
use pwshpy.Base.{ℕ, Bool, false, ◌&&◌, ◌||◌, List, [], ◌∷◌, ◌++◌, leb, ◌==◌, if◌then◌else◌}
use pwshpy.Text.{Text}

-- The line boundaries of `str.splitlines`.
unfoldable pub is_line_break : ℕ → Bool
is_line_break c =
    leb 10 c && leb c 13 || leb 28 c && leb c 30 || c == 0x85 || c == 0x2028 || c == 0x2029

-- `cur` is the line so far; a line feed behind a carriage return (`cr`) belongs to it.
unfoldable pub lines_from : Text → Text → Bool → List Text
lines_from [] [] cr = []
lines_from [] (d ∷ cur) cr = (d ∷ cur) ∷ []
lines_from (c ∷ s) cur cr =
    let rest = lines_from s (if is_line_break c then [] else cur ++ c ∷ []) (c == 13) in
    if cr && c == 10 then rest else if is_line_break c then cur ∷ rest else rest

unfoldable pub splitlines : Text → List Text
unfolding lines_from is_line_break
splitlines t = lines_from t [] false

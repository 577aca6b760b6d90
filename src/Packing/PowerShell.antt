-- ===== src/Packing/PowerShell.antt =====
-- Quoting for the PowerShell runner: `_powershell_literal`, `_powershell_string_array` and
-- `unquote_powershell_literal` of src/pwshpy/domain/packing.py.
pub mod Reader
pub mod RoundTrip
use pwshpy.Base.{
  ℕ, Bool, true, false, ◌&&◌, ◌||◌, List, [], ◌∷◌, ◌++◌, map, leb, ◌==◌, if◌then◌else◌, flat_map,
}
use pwshpy.Text.{Text, codes, join}

-- `_POWERSHELL_QUOTES`: U+0027, U+2018, U+2019, U+201A and U+201B
unfoldable pub is_powershell_quote : ℕ → Bool
is_powershell_quote c = c == 0x27 || c == 0x2018 || c == 0x2019 || c == 0x201a || c == 0x201b

-- `char * 2 if char in _POWERSHELL_QUOTES else char`
unfoldable pub double_quote : ℕ → Text
double_quote c = if is_powershell_quote c then c ∷ c ∷ [] else c ∷ []

unfoldable pub powershell_literal : Text → Text
unfolding double_quote
powershell_literal value = b'\'' ∷ (flat_map double_quote value ++ b'\'' ∷ [])

unfoldable pub powershell_string_array : List Text → Text
unfolding powershell_literal join
powershell_string_array values = join (codes ",") (map powershell_literal values)

-- The loop over `index`, as a recursion on `body[index:]`: it steps over two characters where the
-- next one repeats a quote character, and over one elsewhere.
unfoldable pub unquote_powershell_literal : Text → Text
unquote_powershell_literal [] = []
unquote_powershell_literal (c ∷ []) = c ∷ []
unquote_powershell_literal (c ∷ d ∷ s) = c ∷ elim (is_powershell_quote c && d == c) [
  | true ↦ unquote_powershell_literal s
  | false ↦ unquote_powershell_literal (d ∷ s)
]

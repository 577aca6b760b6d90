-- ===== src/Text.antt =====
-- Python's `str` as the list of its code points, with the methods that the program calls.
-- Each function is named for the Python operation that it stands for.
pub mod Laws
pub mod Lines
pub mod LineLaws
pub mod Span
pub mod Split
use Prim.Native.Char.{code}
use pwshpy.Base.{
  ℕ, zero, suc, ◌+◌, String, Bool, true, false, ◌&&◌, ◌||◌, not, List, [], ◌∷◌, ◌++◌, leb, ◌==◌,
  if◌then◌else◌, any, flat_map,
}

abbrev pub Text : Type 0
Text = List ℕ

-- A literal of the source.
abbrev pub codes : String → Text
codes String.[] = []
codes (String.◌∷◌ c s) = code c ∷ codes s

-- `s == t`
unfoldable pub text_eq : Text → Text → Bool
text_eq [] [] = true
text_eq [] (d ∷ t) = false
text_eq (c ∷ s) [] = false
text_eq (c ∷ s) (d ∷ t) = c == d && text_eq s t

-- `s in texts`
unfoldable pub mem_text : Text → List Text → Bool
unfolding text_eq
mem_text s ts = any (text_eq s) ts

-- `t.startswith(p)`
unfoldable pub starts_with : Text → Text → Bool
starts_with [] t = true
starts_with (c ∷ p) [] = false
starts_with (c ∷ p) (d ∷ t) = c == d && starts_with p t

-- `t.endswith(s)`: some tail of `t` is `s`
unfoldable pub ends_with : Text → Text → Bool
unfolding text_eq
ends_with s [] = text_eq s []
ends_with s (c ∷ t) = text_eq s (c ∷ t) || ends_with s t

-- `needle in t`
unfoldable pub contains : Text → Text → Bool
unfolding starts_with
contains needle [] = starts_with needle []
contains needle (c ∷ t) = starts_with needle (c ∷ t) || contains needle t

-- `c in t` for one character
abbrev pub has_char : ℕ → Text → Bool
has_char c t = any (λ d. c == d) t

-- `str.isspace` of one character, which is `\s` of `re` too.
unfoldable pub is_space : ℕ → Bool
is_space c =
    leb 9 c && leb c 13
    || leb 28 c && leb c 32
    || c == 0x85
    || c == 0xa0
    || c == 0x1680
    || leb 0x2000 c && leb c 0x200a
    || c == 0x2028
    || c == 0x2029
    || c == 0x202f
    || c == 0x205f
    || c == 0x3000

unfoldable pub lstrip : Text → Text
unfolding is_space
lstrip [] = []
lstrip (c ∷ s) = let rest = lstrip s in if is_space c then rest else c ∷ s

cons_rstrip : ℕ → Text → Text
unfolding is_space
cons_rstrip c [] = if is_space c then [] else c ∷ []
cons_rstrip c (d ∷ s) = c ∷ d ∷ s

unfoldable pub rstrip : Text → Text
unfolding cons_rstrip
rstrip [] = []
rstrip (c ∷ s) = cons_rstrip c (rstrip s)

unfoldable pub strip : Text → Text
unfolding lstrip rstrip
strip s = rstrip (lstrip s)

cons_head : ℕ → List Text → List Text
cons_head c [] = (c ∷ []) ∷ []
cons_head c (p ∷ ps) = (c ∷ p) ∷ ps

-- `t.split(sep)` for a one-character separator: at least one part.
unfoldable pub split : ℕ → Text → List Text
unfolding cons_head
split sep [] = [] ∷ []
split sep (c ∷ s) = let rest = split sep s in if c == sep then [] ∷ rest else cons_head c rest

-- `sep.join(parts)`
unfoldable pub join : Text → List Text → Text
join sep [] = []
join sep (p ∷ []) = p
join sep (p ∷ q ∷ ps) = p ++ (sep ++ join sep (q ∷ ps))

-- `t.replace(c, by)` for one character
unfoldable pub replace : ℕ → Text → Text → Text
replace c by t = flat_map (λ d. if d == c then by else d ∷ []) t

-- `str.lower`, exact wherever the result is ASCII: the letters A to Z, the Kelvin sign and the
-- dotted capital I are all the characters that have an ASCII letter in their lower case.
lower_char : ℕ → Text
lower_char c =
    if leb b'A' c && leb c b'Z'
    then (c + 32) ∷ []
    else if c == 0x212a
    then b'k' ∷ []
    else if c == 0x130
    then b'i' ∷ 0x307 ∷ []
    else c ∷ []

unfoldable pub lower : Text → Text
unfolding lower_char
lower t = flat_map lower_char t

-- ===== src/Packing/RequiresPython/Value.antt =====
-- What `extract_requires_python` returns.
use pwshpy.Base.{
  ℕ, true, ◌≡◌, List, [], ◌∷◌, Bool-cases, inl, inr, all, All, Option, none, some, ok, ◌==◌, ◌&&◌,
}
use pwshpy.Base.Int.{plus_clamped}
use pwshpy.Text.{Text, codes, starts_with, strip}
use pwshpy.Text.Laws.{strip-All}
use pwshpy.Text.Lines.{splitlines}
use pwshpy.Packing.Toml.{scan_toml_line}
use pwshpy.Packing.RequiresPython.{
  inner_lines, is_specifier_char, checked_value, requires_python_line, requires_python_key,
  requires_python_value, uncommented, is_empty, is_match, requires_python_from,
  extract_requires_python,
}

abbrev pub IsSpecifier : Text → Type 0
IsSpecifier = All (λ c. is_specifier_char c ≡ true)

all→IsSpecifier : (s : Text) → all is_specifier_char s ≡ true → IsSpecifier s
all→IsSpecifier [] h = tt
all→IsSpecifier (c ∷ s) h = elim (Bool-cases (is_specifier_char c)) [
  | inl pass ↦ (pass, all→IsSpecifier s (rw pass at h))
  | inr stop ↦ absurd (cc (rw stop at h))
]

checked_value-IsSpecifier :
    (line : Text) (o : Option Text) (value : Text)
    → checked_value line o ≡ ok value
    → IsSpecifier value
checked_value-IsSpecifier line none value h = absurd (cc)
checked_value-IsSpecifier line (some v) value h = elim (Bool-cases (all is_specifier_char v)) [
  | inl pass ↦
      let e : strip v ≡ value = cc (rw pass at h) in
      rw (← e) (strip-All (λ c. is_specifier_char c ≡ true) v (all→IsSpecifier v pass))
  | inr stop ↦ absurd (cc (rw stop at h))
]

requires_python_value-IsSpecifier :
    (line value : Text) → requires_python_value line ≡ ok value → IsSpecifier value
unfolding requires_python_value
requires_python_value-IsSpecifier line value h =
    checked_value-IsSpecifier line (requires_python_line line) value h

requires_python_from-IsSpecifier :
    (depth : ℕ) (open_string : Text) (raws : List Text) (value : Text)
    → requires_python_from depth open_string raws ≡ ok value
    → IsSpecifier value
unfolding requires_python_from
requires_python_from-IsSpecifier depth open_string [] value h =
    let e : [] ≡ value = cc in rw (← e) tt
requires_python_from-IsSpecifier depth open_string (raw ∷ raws) value h =
    let line = strip (uncommented raw) in
    elim (Bool-cases (is_empty open_string && starts_with (codes "[") line && depth == 0)) [
      | inl table ↦ let e : [] ≡ value = cc (rw table at h) in rw (← e) tt
      | inr no_table ↦
          elim (Bool-cases (is_empty open_string && is_match (requires_python_key line))) [
            | inl key ↦ requires_python_value-IsSpecifier line value (rw (no_table, key) at h)
            | inr no_key ↦
                requires_python_from-IsSpecifier
                  (plus_clamped depth (scan_toml_line line open_string).0)
                  (scan_toml_line line open_string).1 raws value (rw (no_table, no_key) at h)
          ]
    ]

-- A value that is read from a block holds only the characters of a version specifier: ASCII letters
-- and digits, blanks and `.,<>=!~*+`, so no quote, no backslash and no line end.
pub extract_requires_python-IsSpecifier :
    (metadata value : Text) → extract_requires_python metadata ≡ ok value → IsSpecifier value
unfolding extract_requires_python
extract_requires_python-IsSpecifier metadata value h =
    requires_python_from-IsSpecifier 0 [] (inner_lines (splitlines metadata)) value h

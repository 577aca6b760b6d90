-- ===== src/Text/LineLaws.antt =====
-- What `splitlines` makes of texts that are put together from lines.
use pwshpy.Base.{
  ℕ, Bool, true, false, ◌&&◌, ◌≡◌, refl, ap, List, [], ◌∷◌, ◌++◌, append_assoc, append-nil, arith,
  ◌==◌, Bool-cases, inl, inr, if◌then◌else◌, All, All-append,
}
use pwshpy.Text.{Text, codes, join}
use pwshpy.Text.Split.{join-one, join-more}
use pwshpy.Text.Lines.{is_line_break, lines_from, splitlines}

-- A text with no line boundary.
abbrev pub IsLine : Text → Type 0
IsLine = All (λ c. is_line_break c ≡ false)

not_return : (c : ℕ) → is_line_break c ≡ false → (c == 13) ≡ false
unfolding is_line_break
not_return c h = ground arith

lines_end : (s cur : Text) → lines_from (b'\n' ∷ s) cur false ≡ cur ∷ lines_from s [] false
unfolding lines_from is_line_break
lines_end s cur = refl

abbrev behind : ℕ → Text → Text → List Text
behind c s cur = lines_from s (if is_line_break c then [] else cur ++ c ∷ []) (c == 13)

lines_step :
    (c : ℕ) (s cur : Text) (cr : Bool)
    → lines_from (c ∷ s) cur cr ≡ (
        if cr && c == 10
        then behind c s cur
        else if is_line_break c
        then cur ∷ behind c s cur
        else behind c s cur)
lines_step c s cur cr = unfold lines_from in refl

lines_more :
    (c : ℕ) (s cur : Text)
    → is_line_break c ≡ false
    → lines_from (c ∷ s) cur false ≡ lines_from s (cur ++ c ∷ []) false
lines_more c s cur h = rw (lines_step, h, not_return c h)

lines_from-line :
    (l cur rest : Text)
    → IsLine l
    → lines_from (l ++ b'\n' ∷ rest) cur false ≡ (cur ++ l) ∷ lines_from rest [] false
lines_from-line [] cur rest h = rw append-nil (lines_end rest cur)
lines_from-line (c ∷ l) cur rest h =
    rw (lines_more c _ cur h.0, lines_from-line l (cur ++ c ∷ []) rest h.1, append_assoc)

-- Lines that are joined by line feeds, with one at the end, are the lines of the text.
pub splitlines-join :
    (l : Text) (ls : List Text)
    → All IsLine (l ∷ ls)
    → splitlines (join (codes "\n") (l ∷ ls) ++ codes "\n") ≡ l ∷ ls
splitlines-join l ls h = unfold splitlines in go l ls h
  where
    go :
        (l : Text) (ls : List Text)
        → All IsLine (l ∷ ls)
        → lines_from (join (codes "\n") (l ∷ ls) ++ codes "\n") [] false ≡ l ∷ ls
    go l [] h = rw (join-one, lines_from-line l [] [] h.0) (unfold lines_from in refl)
    go l (k ∷ ls) h =
        rw (join-more, append_assoc, lines_from-line l [] _ h.0) (ap (λ r. l ∷ r) (go k ls h.1))

lines_from-IsLine : (s cur : Text) (cr : Bool) → IsLine cur → All IsLine (lines_from s cur cr)
lines_from-IsLine [] [] cr h = unfold lines_from in tt
lines_from-IsLine [] (d ∷ cur) cr h = unfold lines_from in (h, tt)
lines_from-IsLine (c ∷ s) cur cr h =
    let rest : All IsLine (behind c s cur) =
      lines_from-IsLine s (if is_line_break c then [] else cur ++ c ∷ []) (c == 13)
        (longer (is_line_break c) refl) in
    rw lines_step (all_of rest)
  where
    longer : (b : Bool) → is_line_break c ≡ b → IsLine (if b then [] else cur ++ c ∷ [])
    longer true e = tt
    longer false e = All-append _ cur (c ∷ []) h (e, tt)

    all_of :
        All IsLine (behind c s cur)
        → All IsLine (
            if cr && c == 10
            then behind c s cur
            else if is_line_break c
            then cur ∷ behind c s cur
            else behind c s cur)
    all_of r = elim (Bool-cases (cr && c == 10)) [
      | inl skip ↦ rw skip r
      | inr look ↦ elim (Bool-cases (is_line_break c)) [
        | inl brk ↦ rw (look, brk) (h, rw brk at r)
        | inr more ↦ rw (look, more) (rw more at r)
      ]
    ]

-- No line of a text holds a line boundary.
pub splitlines-IsLine : (t : Text) → All IsLine (splitlines t)
splitlines-IsLine t = unfold splitlines in lines_from-IsLine t [] false tt

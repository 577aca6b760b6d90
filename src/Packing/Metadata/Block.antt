-- ===== src/Packing/Metadata/Block.antt =====
-- Which lines the block is.
use pwshpy.Base.{
  ◌≡◌, ◌≢◌, refl, ap, sym, subst, ◌∙◌, true, false, List, [], ◌∷◌, ◌++◌, append_assoc, none, some,
  Option-cases, Bool-cases, inl, inr, ◌⊎◌, if◌then◌else◌, All, All-append, All-of_append, ok,
}
use pwshpy.Text.{Text, text_eq, rstrip}
use pwshpy.Text.Lines.{splitlines}
use pwshpy.Text.LineLaws.{IsLine, splitlines-join, splitlines-IsLine}
use pwshpy.Packing.Metadata.{
  pep723_open, pep723_close, is_comment, cons_line, block_end, block_text, closed_block, find_block,
  extract_script_metadata,
}

abbrev pub IsOpening : Text → Type 0
IsOpening line = text_eq (rstrip line) pep723_open ≡ true

abbrev pub IsNoOpening : Text → Type 0
IsNoOpening line = text_eq (rstrip line) pep723_open ≡ false

abbrev pub IsClosing : Text → Type 0
IsClosing line = text_eq (rstrip line) pep723_close ≡ true

-- A line of comment that does not close the block.
abbrev pub IsInside : Text → Type 0
IsInside line = (is_comment (rstrip line) ≡ true) × (text_eq (rstrip line) pep723_close ≡ false)

-- The lines of a block behind its opening line, and what follows it.
pub record IsBlockEnd (lines found : List Text) : Type 0 where
  pub inside : List Text
  pub closing : Text
  pub after : List Text
  pub found_eq : found ≡ inside ++ closing ∷ []
  pub lines_eq : lines ≡ found ++ after
  pub all_inside : All IsInside inside
  pub closes : IsClosing closing

block_step :
    (line : Text) (lines : List Text)
    → block_end (line ∷ lines) ≡ (
        if text_eq (rstrip line) pep723_close
        then some (line ∷ [])
        else if is_comment (rstrip line)
        then cons_line line (block_end lines)
        else none)
block_step line lines = unfold block_end in refl

block_nil : block_end [] ≡ none
block_nil = unfold block_end in refl

block_end-IsBlockEnd :
    (lines found : List Text) → block_end lines ≡ some found → IsBlockEnd lines found
block_end-IsBlockEnd [] found h = cc (block_nil, h)
block_end-IsBlockEnd (line ∷ lines) found h =
    elim (Bool-cases (text_eq (rstrip line) pep723_close)) [
      | inl close ↦
          let e : line ∷ [] ≡ found = cc (rw (block_step, close) at h) in
          record {
            inside = [];
            closing = line;
            after = lines;
            found_eq = sym e;
            lines_eq = ap (λ f. f ++ lines) e;
            all_inside = tt;
            closes = close;
          }
      | inr more ↦ elim (Bool-cases (is_comment (rstrip line))) [
        | inr code ↦ absurd (cc (rw (block_step, more, code) at h))
        | inl comment ↦ elim (Option-cases (block_end lines)) [
          | inl unclosed ↦ absurd (cc (rw (block_step, more, comment, unclosed) at h))
          | inr (rest, e) ↦
              let r = block_end-IsBlockEnd lines rest e in
              let f : line ∷ rest ≡ found = cc (rw (block_step, more, comment, e) at h) in
              record {
                inside = line ∷ r.inside;
                closing = r.closing;
                after = r.after;
                found_eq = sym f ∙ ap (λ l. line ∷ l) r.found_eq;
                lines_eq = ap (λ l. line ∷ l) r.lines_eq ∙ ap (λ l. l ++ r.after) f;
                all_inside = ((comment, more), r.all_inside);
                closes = r.closes;
              }
        ]
      ]
    ]

-- The first block among the lines, with what stands before and behind it.
pub record IsFirstBlock (lines : List Text) (metadata : Text) : Type 0 where
  pub before : List Text
  pub opening : Text
  pub inside : List Text
  pub closing : Text
  pub after : List Text
  pub lines_eq : lines ≡ before ++ opening ∷ (inside ++ closing ∷ after)
  pub none_before : All IsNoOpening before
  pub opens : IsOpening opening
  pub all_inside : All IsInside inside
  pub closes : IsClosing closing
  pub text : metadata ≡ block_text (opening ∷ (inside ++ closing ∷ []))

find_step :
    (line : Text) (lines : List Text)
    → find_block (line ∷ lines) ≡ (
        if text_eq (rstrip line) pep723_open
        then closed_block line (block_end lines)
        else find_block lines)
find_step line lines = unfold find_block in refl

-- No line opens a block and nothing is returned, or the first block is.
abbrev pub IsFound : List Text → Text → Type 0
IsFound lines metadata = (All IsNoOpening lines × (metadata ≡ [])) ⊎ IsFirstBlock lines metadata

later_block :
    (line : Text) (lines : List Text) (metadata : Text)
    → IsNoOpening line
    → IsFound lines metadata
    → IsFound (line ∷ lines) metadata
later_block line lines metadata h (inl (a, e)) = inl ((h, a), e)
later_block line lines metadata h (inr b) = inr (record {
  before = line ∷ b.before;
  opening = b.opening;
  inside = b.inside;
  closing = b.closing;
  after = b.after;
  lines_eq = ap (λ l. line ∷ l) b.lines_eq;
  none_before = (h, b.none_before);
  opens = b.opens;
  all_inside = b.all_inside;
  closes = b.closes;
  text = b.text;
})

find_nil : find_block [] ≡ ok []
find_nil = unfold find_block in refl

find_block-IsFound :
    (lines : List Text) (metadata : Text) → find_block lines ≡ ok metadata → IsFound lines metadata
find_block-IsFound [] metadata h = inl (tt, cc (find_nil, h))
find_block-IsFound (line ∷ lines) metadata h =
    elim (Bool-cases (text_eq (rstrip line) pep723_open)) [
      | inr closed ↦
          later_block line lines metadata closed
            (find_block-IsFound lines metadata (rw (find_step, closed) at h))
      | inl opening ↦ elim (Option-cases (block_end lines)) [
        | inl unclosed ↦ absurd (cc (rw (find_step, opening, unclosed) at h))
        | inr (found, e) ↦
            let r = block_end-IsBlockEnd lines found e in
            let t : block_text (line ∷ found) ≡ metadata = cc (rw (find_step, opening, e) at h) in
            inr (record {
              before = [];
              opening = line;
              inside = r.inside;
              closing = r.closing;
              after = r.after;
              lines_eq =
                  ap (λ l. line ∷ l)
                    (r.lines_eq
                      ∙ ap (λ l. l ++ r.after) r.found_eq
                      ∙ append_assoc r.inside (r.closing ∷ []) r.after);
              none_before = tt;
              opens = opening;
              all_inside = r.all_inside;
              closes = r.closes;
              text = sym t ∙ ap (λ l. block_text (line ∷ l)) r.found_eq;
            })
      ]
    ]

-- What is returned is the first block of the source, from its opening line to the first closing
-- line behind it, with nothing but comment lines between; it is empty only for a source in which no
-- line opens a block.
pub extract_script_metadata-IsFound :
    (source metadata : Text)
    → extract_script_metadata source ≡ ok metadata
    → IsFound (splitlines source) metadata
unfolding extract_script_metadata
extract_script_metadata-IsFound source metadata h =
    find_block-IsFound (splitlines source) metadata h

All-middle :
    (a : List Text) (o : Text) (i : List Text) (c : Text) (z : List Text)
    → All IsLine (a ++ o ∷ (i ++ c ∷ z))
    → All IsLine (o ∷ (i ++ c ∷ []))
All-middle a o i c z h =
    let (_, (ho, hr)) = All-of_append IsLine a (o ∷ (i ++ c ∷ z)) h in
    let (hi, (hc, _)) = All-of_append IsLine i (c ∷ z) hr in
    (ho, All-append IsLine i (c ∷ []) hi (hc, tt))

-- The lines of a block that is returned are those of the source: its opening line, the lines
-- inside and its closing line.
pub splitlines-extract_script_metadata :
    (source metadata : Text)
    → extract_script_metadata source ≡ ok metadata
    → metadata ≢ []
    → (b : IsFirstBlock (splitlines source) metadata) × (splitlines metadata
        ≡ b.opening ∷ (b.inside ++ b.closing ∷ []))
splitlines-extract_script_metadata source metadata h ne =
    elim (extract_script_metadata-IsFound source metadata h) [
      | inl (_, empty) ↦ absurd (ne empty)
      | inr b ↦
          let lines : All IsLine (b.opening ∷ (b.inside ++ b.closing ∷ [])) =
            All-middle b.before b.opening b.inside b.closing b.after
              (subst (All IsLine) b.lines_eq (splitlines-IsLine source)) in
          (b, ap splitlines b.text ∙ splitlines-join b.opening (b.inside ++ b.closing ∷ []) lines)
    ]

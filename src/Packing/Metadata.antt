-- ===== src/Packing/Metadata.antt =====
-- The PEP 723 block of an entry script: `extract_script_metadata` of
-- src/pwshpy/domain/packing.py.
pub mod Block
use pwshpy.Base.{
  Bool, true, false, ◌||◌, List, [], ◌∷◌, ◌++◌, Option, none, some, if◌then◌else◌, Result, ok, err,
}
use pwshpy.Text.{Text, codes, text_eq, starts_with, rstrip, join}
use pwshpy.Text.Lines.{splitlines}

pub data MetadataError : Type 0 where
  block_not_closed : MetadataError

-- `_PEP723_OPEN` and `_PEP723_CLOSE`
abbrev pub pep723_open : Text
pep723_open = codes "# /// script"

abbrev pub pep723_close : Text
pep723_close = codes "# ///"

-- What may stand in a block, with the white space at its end taken off.
unfoldable pub is_comment : Text → Bool
is_comment stripped = text_eq stripped (codes "#") || starts_with (codes "# ") stripped

abbrev pub cons_line : Text → Option (List Text) → Option (List Text)
cons_line line none = none
cons_line line (some lines) = some (line ∷ lines)

-- The lines behind the opening one, up to the closing one; `none` where the block is not closed.
unfoldable pub block_end : List Text → Option (List Text)
block_end [] = none
block_end (line ∷ lines) =
    let rest = block_end lines in
    if text_eq (rstrip line) pep723_close
    then some (line ∷ [])
    else if is_comment (rstrip line)
    then cons_line line rest
    else none

abbrev pub block_text : List Text → Text
block_text lines = join (codes "\n") lines ++ codes "\n"

abbrev pub closed_block : Text → Option (List Text) → Result MetadataError Text
closed_block line none = err block_not_closed
closed_block line (some lines) = ok (block_text (line ∷ lines))

unfoldable pub find_block : List Text → Result MetadataError Text
find_block [] = ok []
find_block (line ∷ lines) =
    let later = find_block lines in
    if text_eq (rstrip line) pep723_open then closed_block line (block_end lines) else later

unfoldable pub extract_script_metadata : Text → Result MetadataError Text
extract_script_metadata source = find_block (splitlines source)

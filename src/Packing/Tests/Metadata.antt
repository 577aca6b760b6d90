-- ===== src/Packing/Tests/Metadata.antt =====
-- Finding the PEP 723 block at concrete inputs.
use pwshpy.Base.{◌≡◌, refl, [], ◌++◌, ok, err}
use pwshpy.Text.{Text, codes, text_eq, rstrip, starts_with, join}
use pwshpy.Text.Lines.{splitlines}
use pwshpy.Packing.Metadata.{
  block_not_closed, block_end, find_block, is_comment, extract_script_metadata,
}
use pwshpy.Packing.Metadata.Block.{IsFound, extract_script_metadata-IsFound}

abbrev block : Text
block = codes "# /// script\n# dependencies = [\"rich\"]\n# ///\n"

abbrev script : Text
script = block ++ codes "import rich\n"

found : extract_script_metadata script ≡ ok block
unfolding extract_script_metadata splitlines find_block block_end is_comment text_eq rstrip
    starts_with join
found = refl

no_block : extract_script_metadata (codes "import os\n") ≡ ok []
unfolding extract_script_metadata splitlines find_block text_eq rstrip
no_block = refl

open_block : extract_script_metadata (codes "# /// script\n# x\nimport os\n") ≡ err block_not_closed
unfolding extract_script_metadata splitlines find_block block_end is_comment text_eq rstrip
    starts_with
open_block = refl

extract_script_metadata-IsFound_example : IsFound (splitlines script) block
extract_script_metadata-IsFound_example = extract_script_metadata-IsFound script block found

-- ===== src/Shortcuts/Tests.antt =====
-- Shortcuts to a program of the system, for paths on drive C.
use pwshpy.Base.{◌≡◌, ◌↔◌, refl, Bool, true, List, [], ◌∷◌, none, some, ok, err, if◌then◌else◌}
use pwshpy.Base.Int.{pos, negsuc}
use pwshpy.Text.{Text, codes, starts_with, ends_with, join, lower, text_eq}
use pwshpy.Shortcuts.{
  text_value, bool_value, int_value, none_value, sequence, path, argument, forbidden, not_absolute,
  single_text, out_of_range, not_a_bool, text_of, bounded, name_end, environment_prefix,
  icon_index_of, flag, optional, argument_texts, lnk_path, target_of, line_within, arguments_of,
  Given, ShortcutSpec, new_spec, joined_arguments,
}
use pwshpy.Shortcuts.Specs.{IsStored, Stores, new_spec_iff}

abbrev absolute : Text → Bool
absolute t = starts_with (codes "C:") t

abbrev suffix : Text → Text
suffix t = if ends_with (codes ".LNK") t then codes ".LNK" else []

abbrev joined : List Text → Text
joined argv = join (codes " ") argv

abbrev given : Given
given = record {
  path = text_value (codes "C:/Tool.LNK");
  target = text_value (codes "%SystemRoot%\\notepad.exe");
  arguments = sequence (some (codes "--name") ∷ some (codes "x") ∷ []);
  working_directory = none_value;
  icon = text_value [];
  icon_index = int_value (negsuc 2147483647);
  description = text_value (codes "Run it");
  run_as_administrator = bool_value true;
}

abbrev spec : ShortcutSpec
spec = record {
  path = codes "C:/Tool.LNK";
  target = codes "%SystemRoot%\\notepad.exe";
  arguments = codes "--name" ∷ codes "x" ∷ [];
  working_directory = none;
  icon = none;
  icon_index = negsuc 2147483647;
  description = some (codes "Run it");
  run_as_administrator = true;
}

made : new_spec absolute suffix joined given ≡ ok spec
unfolding new_spec lnk_path target_of arguments_of argument_texts line_within text_of bounded
    optional icon_index_of flag environment_prefix name_end starts_with ends_with text_eq lower join
made = refl

relative : lnk_path absolute suffix joined (text_value (codes "Tool.lnk")) ≡ err (not_absolute path)
unfolding lnk_path text_of starts_with
relative = refl

no_line_break :
    arguments_of absolute suffix joined (sequence (some [] ∷ some (b'a' ∷ 10 ∷ []) ∷ []))
    ≡ err (forbidden (argument 2) 10)
unfolding arguments_of argument_texts text_of
no_line_break = refl

never_split : arguments_of absolute suffix joined (text_value (codes "-a -b")) ≡ err single_text
unfolding arguments_of
never_split = refl

out_of_int32 : icon_index_of (int_value (pos 2147483648)) ≡ err out_of_range
unfolding icon_index_of
out_of_int32 = refl

no_truth_of_texts : flag (text_value (codes "no")) ≡ err not_a_bool
unfolding flag
no_truth_of_texts = refl

line : joined_arguments absolute suffix joined spec ≡ codes "--name x"
unfolding joined_arguments join
line = refl

new_spec_iff_example :
    (new_spec absolute suffix joined given ≡ ok spec)
    ↔ (Stores absolute suffix joined given spec × IsStored absolute suffix joined spec)
new_spec_iff_example = new_spec_iff absolute suffix joined given spec

-- ===== src/Enums/OutputFormat.antt =====
-- `OutputFormat` of src/pwshpy/domain/enums.py.
use pwshpy.Base.{◌≡◌, ◌↔◌, refl, [], ◌∷◌, List, Option, some, ap, ◌∙◌}
use pwshpy.Text.{Text, codes, text_eq}
use pwshpy.Enums.ByValue.{by_value, by_value→eq}

pub data OutputFormat : Type 0 where
  human : OutputFormat
  json : OutputFormat

abbrev pub output_format_members : List OutputFormat
output_format_members = human ∷ json ∷ []

unfoldable pub output_format_value : OutputFormat → Text
output_format_value human = codes "human"
output_format_value json = codes "json"

-- `OutputFormat(text)`, `none` for a `ValueError`
unfoldable pub output_format_of : Text → Option OutputFormat
unfolding by_value output_format_value
output_format_of text = by_value output_format_value output_format_members text

output_format_of-value :
    (member : OutputFormat) → output_format_of (output_format_value member) ≡ some member
unfolding output_format_of output_format_value text_eq
output_format_of-value human = refl
output_format_of-value json = refl

-- A text stands for a member of `OutputFormat` exactly if it is the member's value.
pub output_format_of_iff :
    (text : Text) (member : OutputFormat)
    → (output_format_of text ≡ some member) ↔ (text ≡ output_format_value member)
unfolding output_format_of
output_format_of_iff text member = (
  by_value→eq output_format_value output_format_members text member,
  λ e. ap output_format_of e ∙ output_format_of-value member,
)

-- ===== src/Enums/FileItemType.antt =====
-- `FileItemType` of src/pwshpy/domain/enums.py.
use pwshpy.Base.{◌≡◌, ◌↔◌, refl, [], ◌∷◌, List, Option, some, ap, ◌∙◌}
use pwshpy.Text.{Text, codes, text_eq}
use pwshpy.Enums.ByValue.{by_value, by_value→eq}

pub data FileItemType : Type 0 where
  file : FileItemType
  directory : FileItemType

abbrev pub file_item_type_members : List FileItemType
file_item_type_members = file ∷ directory ∷ []

unfoldable pub file_item_type_value : FileItemType → Text
file_item_type_value file = codes "file"
file_item_type_value directory = codes "directory"

-- `FileItemType(text)`, `none` for a `ValueError`
unfoldable pub file_item_type_of : Text → Option FileItemType
unfolding by_value file_item_type_value
file_item_type_of text = by_value file_item_type_value file_item_type_members text

file_item_type_of-value :
    (member : FileItemType) → file_item_type_of (file_item_type_value member) ≡ some member
unfolding file_item_type_of file_item_type_value text_eq
file_item_type_of-value file = refl
file_item_type_of-value directory = refl

-- A text stands for a member of `FileItemType` exactly if it is the member's value.
pub file_item_type_of_iff :
    (text : Text) (member : FileItemType)
    → (file_item_type_of text ≡ some member) ↔ (text ≡ file_item_type_value member)
unfolding file_item_type_of
file_item_type_of_iff text member = (
  by_value→eq file_item_type_value file_item_type_members text member,
  λ e. ap file_item_type_of e ∙ file_item_type_of-value member,
)

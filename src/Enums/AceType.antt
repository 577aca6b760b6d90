-- ===== src/Enums/AceType.antt =====
-- `AceType` of src/pwshpy/domain/enums.py.
use pwshpy.Base.{◌≡◌, ◌↔◌, refl, [], ◌∷◌, List, Option, some, ap, ◌∙◌}
use pwshpy.Text.{Text, codes, text_eq}
use pwshpy.Enums.ByValue.{by_value, by_value→eq}

pub data AceType : Type 0 where
  allow : AceType
  deny : AceType

abbrev pub ace_type_members : List AceType
ace_type_members = allow ∷ deny ∷ []

unfoldable pub ace_type_value : AceType → Text
ace_type_value allow = codes "Allow"
ace_type_value deny = codes "Deny"

-- `AceType(text)`, `none` for a `ValueError`
unfoldable pub ace_type_of : Text → Option AceType
unfolding by_value ace_type_value
ace_type_of text = by_value ace_type_value ace_type_members text

ace_type_of-value : (member : AceType) → ace_type_of (ace_type_value member) ≡ some member
unfolding ace_type_of ace_type_value text_eq
ace_type_of-value allow = refl
ace_type_of-value deny = refl

-- A text stands for a member of `AceType` exactly if it is the member's value.
pub ace_type_of_iff :
    (text : Text) (member : AceType)
    → (ace_type_of text ≡ some member) ↔ (text ≡ ace_type_value member)
unfolding ace_type_of
ace_type_of_iff text member = (
  by_value→eq ace_type_value ace_type_members text member,
  λ e. ap ace_type_of e ∙ ace_type_of-value member,
)

-- ===== src/Enums/IntegrityLevel.antt =====
-- `IntegrityLevel` of src/pwshpy/domain/enums.py.
use pwshpy.Base.{◌≡◌, ◌↔◌, refl, [], ◌∷◌, List, Option, some, ap, ◌∙◌}
use pwshpy.Text.{Text, codes, text_eq}
use pwshpy.Enums.ByValue.{by_value, by_value→eq}

pub data IntegrityLevel : Type 0 where
  untrusted : IntegrityLevel
  low : IntegrityLevel
  medium : IntegrityLevel
  high : IntegrityLevel
  system : IntegrityLevel
  protected : IntegrityLevel

abbrev pub integrity_level_members : List IntegrityLevel
integrity_level_members = untrusted ∷ low ∷ medium ∷ high ∷ system ∷ protected ∷ []

unfoldable pub integrity_level_value : IntegrityLevel → Text
integrity_level_value untrusted = codes "Untrusted"
integrity_level_value low = codes "Low"
integrity_level_value medium = codes "Medium"
integrity_level_value high = codes "High"
integrity_level_value system = codes "System"
integrity_level_value protected = codes "Protected"

-- `IntegrityLevel(text)`, `none` for a `ValueError`
unfoldable pub integrity_level_of : Text → Option IntegrityLevel
unfolding by_value integrity_level_value
integrity_level_of text = by_value integrity_level_value integrity_level_members text

integrity_level_of-value :
    (member : IntegrityLevel) → integrity_level_of (integrity_level_value member) ≡ some member
unfolding integrity_level_of integrity_level_value text_eq
integrity_level_of-value untrusted = refl
integrity_level_of-value low = refl
integrity_level_of-value medium = refl
integrity_level_of-value high = refl
integrity_level_of-value system = refl
integrity_level_of-value protected = refl

-- A text stands for a member of `IntegrityLevel` exactly if it is the member's value.
pub integrity_level_of_iff :
    (text : Text) (member : IntegrityLevel)
    → (integrity_level_of text ≡ some member) ↔ (text ≡ integrity_level_value member)
unfolding integrity_level_of
integrity_level_of_iff text member = (
  by_value→eq integrity_level_value integrity_level_members text member,
  λ e. ap integrity_level_of e ∙ integrity_level_of-value member,
)

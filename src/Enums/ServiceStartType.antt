-- ===== src/Enums/ServiceStartType.antt =====
-- `ServiceStartType` of src/pwshpy/domain/enums.py.
use pwshpy.Base.{◌≡◌, ◌↔◌, refl, [], ◌∷◌, List, Option, some, ap, ◌∙◌}
use pwshpy.Text.{Text, codes, text_eq}
use pwshpy.Enums.ByValue.{by_value, by_value→eq}

pub data ServiceStartType : Type 0 where
  boot : ServiceStartType
  system : ServiceStartType
  automatic : ServiceStartType
  manual : ServiceStartType
  disabled : ServiceStartType

abbrev pub service_start_type_members : List ServiceStartType
service_start_type_members = boot ∷ system ∷ automatic ∷ manual ∷ disabled ∷ []

unfoldable pub service_start_type_value : ServiceStartType → Text
service_start_type_value boot = codes "Boot"
service_start_type_value system = codes "System"
service_start_type_value automatic = codes "Automatic"
service_start_type_value manual = codes "Manual"
service_start_type_value disabled = codes "Disabled"

-- `ServiceStartType(text)`, `none` for a `ValueError`
unfoldable pub service_start_type_of : Text → Option ServiceStartType
unfolding by_value service_start_type_value
service_start_type_of text = by_value service_start_type_value service_start_type_members text

service_start_type_of-value :
    (member : ServiceStartType)
    → service_start_type_of (service_start_type_value member) ≡ some member
unfolding service_start_type_of service_start_type_value text_eq
service_start_type_of-value boot = refl
service_start_type_of-value system = refl
service_start_type_of-value automatic = refl
service_start_type_of-value manual = refl
service_start_type_of-value disabled = refl

-- A text stands for a member of `ServiceStartType` exactly if it is the member's value.
pub service_start_type_of_iff :
    (text : Text) (member : ServiceStartType)
    → (service_start_type_of text ≡ some member) ↔ (text ≡ service_start_type_value member)
unfolding service_start_type_of
service_start_type_of_iff text member = (
  by_value→eq service_start_type_value service_start_type_members text member,
  λ e. ap service_start_type_of e ∙ service_start_type_of-value member,
)

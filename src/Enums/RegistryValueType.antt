-- ===== src/Enums/RegistryValueType.antt =====
-- `RegistryValueType` of src/pwshpy/domain/enums.py.
use pwshpy.Base.{◌≡◌, ◌↔◌, refl, [], ◌∷◌, List, Option, some, ap, ◌∙◌}
use pwshpy.Text.{Text, codes, text_eq}
use pwshpy.Enums.ByValue.{by_value, by_value→eq}

pub data RegistryValueType : Type 0 where
  reg_none : RegistryValueType
  reg_sz : RegistryValueType
  reg_expand_sz : RegistryValueType
  reg_binary : RegistryValueType
  reg_dword : RegistryValueType
  reg_dword_big_endian : RegistryValueType
  reg_link : RegistryValueType
  reg_multi_sz : RegistryValueType
  reg_resource_list : RegistryValueType
  reg_full_resource_descriptor : RegistryValueType
  reg_resource_requirements_list : RegistryValueType
  reg_qword : RegistryValueType

abbrev pub registry_value_type_members : List RegistryValueType
registry_value_type_members =
    reg_none ∷ reg_sz ∷ reg_expand_sz ∷ reg_binary ∷ reg_dword ∷ reg_dword_big_endian ∷ reg_link
    ∷ reg_multi_sz ∷ reg_resource_list ∷ reg_full_resource_descriptor
    ∷ reg_resource_requirements_list ∷ reg_qword ∷ []

unfoldable pub registry_value_type_value : RegistryValueType → Text
registry_value_type_value reg_none = codes "REG_NONE"
registry_value_type_value reg_sz = codes "REG_SZ"
registry_value_type_value reg_expand_sz = codes "REG_EXPAND_SZ"
registry_value_type_value reg_binary = codes "REG_BINARY"
registry_value_type_value reg_dword = codes "REG_DWORD"
registry_value_type_value reg_dword_big_endian = codes "REG_DWORD_BIG_ENDIAN"
registry_value_type_value reg_link = codes "REG_LINK"
registry_value_type_value reg_multi_sz = codes "REG_MULTI_SZ"
registry_value_type_value reg_resource_list = codes "REG_RESOURCE_LIST"
registry_value_type_value reg_full_resource_descriptor = codes "REG_FULL_RESOURCE_DESCRIPTOR"
registry_value_type_value reg_resource_requirements_list = codes "REG_RESOURCE_REQUIREMENTS_LIST"
registry_value_type_value reg_qword = codes "REG_QWORD"

-- `RegistryValueType(text)`, `none` for a `ValueError`
unfoldable pub registry_value_type_of : Text → Option RegistryValueType
unfolding by_value registry_value_type_value
registry_value_type_of text = by_value registry_value_type_value registry_value_type_members text

registry_value_type_of-value :
    (member : RegistryValueType)
    → registry_value_type_of (registry_value_type_value member) ≡ some member
unfolding registry_value_type_of registry_value_type_value text_eq
registry_value_type_of-value reg_none = refl
registry_value_type_of-value reg_sz = refl
registry_value_type_of-value reg_expand_sz = refl
registry_value_type_of-value reg_binary = refl
registry_value_type_of-value reg_dword = refl
registry_value_type_of-value reg_dword_big_endian = refl
registry_value_type_of-value reg_link = refl
registry_value_type_of-value reg_multi_sz = refl
registry_value_type_of-value reg_resource_list = refl
registry_value_type_of-value reg_full_resource_descriptor = refl
registry_value_type_of-value reg_resource_requirements_list = refl
registry_value_type_of-value reg_qword = refl

-- A text stands for a member of `RegistryValueType` exactly if it is the member's value.
pub registry_value_type_of_iff :
    (text : Text) (member : RegistryValueType)
    → (registry_value_type_of text ≡ some member) ↔ (text ≡ registry_value_type_value member)
unfolding registry_value_type_of
registry_value_type_of_iff text member = (
  by_value→eq registry_value_type_value registry_value_type_members text member,
  λ e. ap registry_value_type_of e ∙ registry_value_type_of-value member,
)

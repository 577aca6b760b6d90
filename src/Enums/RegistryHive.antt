-- ===== src/Enums/RegistryHive.antt =====
-- `RegistryHive` of src/pwshpy/domain/enums.py.
use pwshpy.Base.{◌≡◌, ◌↔◌, refl, [], ◌∷◌, List, Option, some, ap, ◌∙◌}
use pwshpy.Text.{Text, codes, text_eq}
use pwshpy.Enums.ByValue.{by_value, by_value→eq}

pub data RegistryHive : Type 0 where
  hkcr : RegistryHive
  hkcu : RegistryHive
  hklm : RegistryHive
  hku : RegistryHive
  hkcc : RegistryHive

abbrev pub registry_hive_members : List RegistryHive
registry_hive_members = hkcr ∷ hkcu ∷ hklm ∷ hku ∷ hkcc ∷ []

unfoldable pub registry_hive_value : RegistryHive → Text
registry_hive_value hkcr = codes "HKCR"
registry_hive_value hkcu = codes "HKCU"
registry_hive_value hklm = codes "HKLM"
registry_hive_value hku = codes "HKU"
registry_hive_value hkcc = codes "HKCC"

-- `RegistryHive(text)`, `none` for a `ValueError`
unfoldable pub registry_hive_of : Text → Option RegistryHive
unfolding by_value registry_hive_value
registry_hive_of text = by_value registry_hive_value registry_hive_members text

registry_hive_of-value :
    (member : RegistryHive) → registry_hive_of (registry_hive_value member) ≡ some member
unfolding registry_hive_of registry_hive_value text_eq
registry_hive_of-value hkcr = refl
registry_hive_of-value hkcu = refl
registry_hive_of-value hklm = refl
registry_hive_of-value hku = refl
registry_hive_of-value hkcc = refl

-- A text stands for a member of `RegistryHive` exactly if it is the member's value.
pub registry_hive_of_iff :
    (text : Text) (member : RegistryHive)
    → (registry_hive_of text ≡ some member) ↔ (text ≡ registry_hive_value member)
unfolding registry_hive_of
registry_hive_of_iff text member = (
  by_value→eq registry_hive_value registry_hive_members text member,
  λ e. ap registry_hive_of e ∙ registry_hive_of-value member,
)

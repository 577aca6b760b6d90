-- ===== src/Marshal/Registry.antt =====
-- The registry: `_REGISTRY_TYPE_BY_INT`, `_REGISTRY_HIVE_BY_NAME` and their functions, and
-- `normalize_registry_data`, of src/pwshpy/adapters/native/marshal.py.
use pwshpy.Base.{ℕ, ◌+◌, ◌/◌, ◌%◌, List, [], ◌∷◌, Option, none, some, if◌then◌else◌, ltb}
use pwshpy.Text.{Text, codes, text_eq}
use pwshpy.Enums.RegistryValueType.{
  RegistryValueType, reg_none, reg_sz, reg_expand_sz, reg_binary, reg_dword, reg_dword_big_endian,
  reg_link, reg_multi_sz, reg_resource_list, reg_full_resource_descriptor,
  reg_resource_requirements_list, reg_qword, registry_value_type_value,
}
use pwshpy.Enums.RegistryHive.{RegistryHive, hkcr, hkcu, hklm, hku, hkcc}
use pwshpy.Marshal.{entry_or, key_of}

abbrev pub registry_type_by_int : List (ℕ × RegistryValueType)
registry_type_by_int =
    (0, reg_none)
    ∷ (1, reg_sz)
    ∷ (2, reg_expand_sz)
    ∷ (3, reg_binary)
    ∷ (4, reg_dword)
    ∷ (5, reg_dword_big_endian)
    ∷ (6, reg_link)
    ∷ (7, reg_multi_sz)
    ∷ (8, reg_resource_list)
    ∷ (9, reg_full_resource_descriptor)
    ∷ (10, reg_resource_requirements_list)
    ∷ (11, reg_qword)
    ∷ []

unfoldable pub to_registry_value_type : ℕ → RegistryValueType
to_registry_value_type value_type = entry_or registry_type_by_int reg_none value_type

-- `none` is a `KeyError`
unfoldable pub from_registry_value_type : RegistryValueType → Option ℕ
from_registry_value_type value_type =
    key_of registry_value_type_value registry_type_by_int value_type

abbrev pub registry_hive_by_name : List (Text × RegistryHive)
registry_hive_by_name =
    (codes "HKEY_CLASSES_ROOT", hkcr)
    ∷ (codes "HKCR", hkcr)
    ∷ (codes "HKEY_CURRENT_USER", hkcu)
    ∷ (codes "HKCU", hkcu)
    ∷ (codes "HKEY_LOCAL_MACHINE", hklm)
    ∷ (codes "HKLM", hklm)
    ∷ (codes "HKEY_USERS", hku)
    ∷ (codes "HKU", hku)
    ∷ (codes "HKEY_CURRENT_CONFIG", hkcc)
    ∷ (codes "HKCC", hkcc)
    ∷ []

unfoldable pub hive_named : List (Text × RegistryHive) → Text → Option RegistryHive
hive_named [] name = none
hive_named ((key, hive) ∷ hives) name =
    let later = hive_named hives name in if text_eq key name then some hive else later

-- `none` is a `KeyError`; `upper` is `str.upper`
unfoldable pub to_registry_hive : (Text → Text) → Text → Option RegistryHive
to_registry_hive upper name = hive_named registry_hive_by_name (upper name)

-- What a registry value holds.
pub data RegistryData : Type 0 where
  bytes : List ℕ → RegistryData
  number : ℕ → RegistryData
  string : Text → RegistryData
  strings : List Text → RegistryData
  nothing : RegistryData

unfoldable pub hex_digit : ℕ → ℕ
hex_digit d = if ltb d 10 then b'0' + d else 87 + d

-- `data.hex()`
unfoldable pub hex : List ℕ → Text
hex [] = []
hex (b ∷ bs) = hex_digit (b / 16) ∷ hex_digit (b % 16) ∷ hex bs

unfoldable pub normalize_registry_data : RegistryData → RegistryData
normalize_registry_data (bytes data_bytes) = string (hex data_bytes)
normalize_registry_data (number n) = number n
normalize_registry_data (string t) = string t
normalize_registry_data (strings ts) = strings ts
normalize_registry_data nothing = nothing

-- ===== src/Marshal/RoundTrip.antt =====
-- Translating a member of an enumeration into the number that Windows knows, and back.
use pwshpy.Base.{ℕ, ◌≡◌, refl, some}
use pwshpy.Text.{text_eq}
use pwshpy.Enums.RegistryValueType.{
  RegistryValueType, reg_none, reg_sz, reg_expand_sz, reg_binary, reg_dword, reg_dword_big_endian,
  reg_link, reg_multi_sz, reg_resource_list, reg_full_resource_descriptor,
  reg_resource_requirements_list, reg_qword, registry_value_type_value,
}
use pwshpy.Enums.ServiceStartType.{
  ServiceStartType, boot, system, automatic, manual, disabled, service_start_type_value,
}
use pwshpy.Scheduling.Settings.{TaskMultipleInstances, parallel, queue, ignore_new, stop_existing}
use pwshpy.Marshal.{entry, key_of}
use pwshpy.Marshal.Registry.{to_registry_value_type, from_registry_value_type}
use pwshpy.Marshal.Services.{to_service_start_type, from_service_start_type}
use pwshpy.Marshal.Tasks.{to_task_multiple_instances, from_task_multiple_instances}

registry_value_type-back :
    (member : RegistryValueType)
    → (id : ℕ) × (from_registry_value_type member ≡ some id) × (to_registry_value_type id ≡ member)
unfolding from_registry_value_type to_registry_value_type key_of entry registry_value_type_value
    text_eq
registry_value_type-back reg_none = (0, refl, refl)
registry_value_type-back reg_sz = (1, refl, refl)
registry_value_type-back reg_expand_sz = (2, refl, refl)
registry_value_type-back reg_binary = (3, refl, refl)
registry_value_type-back reg_dword = (4, refl, refl)
registry_value_type-back reg_dword_big_endian = (5, refl, refl)
registry_value_type-back reg_link = (6, refl, refl)
registry_value_type-back reg_multi_sz = (7, refl, refl)
registry_value_type-back reg_resource_list = (8, refl, refl)
registry_value_type-back reg_full_resource_descriptor = (9, refl, refl)
registry_value_type-back reg_resource_requirements_list = (10, refl, refl)
registry_value_type-back reg_qword = (11, refl, refl)

service_start_type-back :
    (member : ServiceStartType)
    → (id : ℕ) × (from_service_start_type member ≡ some id) × (to_service_start_type id ≡ member)
unfolding from_service_start_type to_service_start_type key_of entry service_start_type_value
    text_eq
service_start_type-back boot = (0, refl, refl)
service_start_type-back system = (1, refl, refl)
service_start_type-back automatic = (2, refl, refl)
service_start_type-back manual = (3, refl, refl)
service_start_type-back disabled = (4, refl, refl)

task_multiple_instances-back :
    (member : TaskMultipleInstances)
    → (id : ℕ) × (from_task_multiple_instances member ≡ some id)
      × (to_task_multiple_instances id ≡ some member)
unfolding from_task_multiple_instances to_task_multiple_instances key_of entry text_eq
task_multiple_instances-back parallel = (0, refl, refl)
task_multiple_instances-back queue = (1, refl, refl)
task_multiple_instances-back ignore_new = (2, refl, refl)
task_multiple_instances-back stop_existing = (3, refl, refl)

-- Each type of a registry value, each start type of a service and each policy for overlapping runs
-- has a number, which is translated back to it.
pub to_members-from_members :
    ((member : RegistryValueType)
      → (id : ℕ) × (from_registry_value_type member ≡ some id)
        × (to_registry_value_type id ≡ member))
    × ((member : ServiceStartType)
        → (id : ℕ) × (from_service_start_type member ≡ some id)
          × (to_service_start_type id ≡ member))
    × ((member : TaskMultipleInstances)
        → (id : ℕ) × (from_task_multiple_instances member ≡ some id)
          × (to_task_multiple_instances id ≡ some member))
to_members-from_members =
    (registry_value_type-back, service_start_type-back, task_multiple_instances-back)

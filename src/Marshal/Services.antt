-- ===== src/Marshal/Services.antt =====
-- Services and events: `_SERVICE_STATE_BY_INT`, `_SERVICE_START_TYPE_BY_INT`, `_SERVICE_KIND_BITS`,
-- `_EVENT_LEVEL_BY_INT` and their functions, of src/pwshpy/adapters/native/marshal.py.
use pwshpy.Base.{ℕ, List, [], ◌∷◌, Option}
use pwshpy.Enums.ServiceState.{
  ServiceState, stopped, start_pending, stop_pending, running, continue_pending, pause_pending,
  paused,
}
use pwshpy.Enums.ServiceStartType.{
  ServiceStartType, boot, system, automatic, manual, disabled, service_start_type_value,
}
use pwshpy.Enums.ServiceKind.{
  ServiceKind, kernel_driver, file_system_driver, adapter, recognizer_driver, win32_own_process,
  win32_share_process, interactive_process,
}
use pwshpy.Enums.EventLevel.{EventLevel, log_always, critical, error, warning, information, verbose}
use pwshpy.Marshal.{entry_or, key_of, first_bit}

abbrev pub service_state_by_int : List (ℕ × ServiceState)
service_state_by_int =
    (1, stopped)
    ∷ (2, start_pending)
    ∷ (3, stop_pending)
    ∷ (4, running)
    ∷ (5, continue_pending)
    ∷ (6, pause_pending)
    ∷ (7, paused)
    ∷ []

unfoldable pub to_service_state : ℕ → ServiceState
to_service_state state = entry_or service_state_by_int stopped state

abbrev pub service_start_type_by_int : List (ℕ × ServiceStartType)
service_start_type_by_int =
    (0, boot) ∷ (1, system) ∷ (2, automatic) ∷ (3, manual) ∷ (4, disabled) ∷ []

unfoldable pub to_service_start_type : ℕ → ServiceStartType
to_service_start_type start_type = entry_or service_start_type_by_int manual start_type

-- `none` is a `KeyError`
unfoldable pub from_service_start_type : ServiceStartType → Option ℕ
from_service_start_type start_type =
    key_of service_start_type_value service_start_type_by_int start_type

abbrev pub service_kind_bits : List (ℕ × ServiceKind)
service_kind_bits =
    (0x01, kernel_driver)
    ∷ (0x02, file_system_driver)
    ∷ (0x04, adapter)
    ∷ (0x08, recognizer_driver)
    ∷ (0x10, win32_own_process)
    ∷ (0x20, win32_share_process)
    ∷ (0x100, interactive_process)
    ∷ []

unfoldable pub to_service_kind : ℕ → ServiceKind
to_service_kind service_type = first_bit service_kind_bits service_type win32_own_process

abbrev pub event_level_by_int : List (ℕ × EventLevel)
event_level_by_int =
    (0, log_always)
    ∷ (1, critical)
    ∷ (2, error)
    ∷ (3, warning)
    ∷ (4, information)
    ∷ (5, verbose)
    ∷ []

unfoldable pub to_event_level : ℕ → EventLevel
to_event_level level = entry_or event_level_by_int information level

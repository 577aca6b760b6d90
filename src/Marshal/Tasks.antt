-- ===== src/Marshal/Tasks.antt =====
-- Scheduled tasks, access control entries and integrity levels: `to_task_state`, `to_task_run_level`,
-- `to_task_result`, `to_task_multiple_instances`, `from_task_multiple_instances`, `to_ace_type` and
-- `to_integrity_level` of src/pwshpy/adapters/native/marshal.py.
use pwshpy.Base.{
  ℕ, ◌-◌, ◌%◌, Bool, ◌||◌, List, [], ◌∷◌, Option, none, some, ◌==◌, any, if◌then◌else◌,
}
use pwshpy.Base.Int.{ℤ, pos, negsuc}
use pwshpy.Text.{Text, codes}
use pwshpy.Enums.TaskState.{TaskState, unknown, disabled, queued, ready, running}
use pwshpy.Enums.IntegrityLevel.{IntegrityLevel, untrusted, low, medium, high, system, protected}
use pwshpy.Enums.AceType.{AceType, allow, deny}
use pwshpy.Scheduling.Principal.{TaskRunLevel, limited, highest}
use pwshpy.Scheduling.Settings.{TaskMultipleInstances, parallel, queue, ignore_new, stop_existing}
use pwshpy.Marshal.{entry, entry_or, key_of, first_floor}

abbrev pub task_state_by_int : List (ℕ × TaskState)
task_state_by_int = (0, unknown) ∷ (1, disabled) ∷ (2, queued) ∷ (3, ready) ∷ (4, running) ∷ []

unfoldable pub to_task_state : ℕ → TaskState
to_task_state state = entry_or task_state_by_int unknown state

unfoldable pub to_task_run_level : ℕ → TaskRunLevel
to_task_run_level value = if value == 1 then highest else limited

abbrev pub integrity_bands : List (ℕ × IntegrityLevel)
integrity_bands =
    (0x5000, protected) ∷ (0x4000, system) ∷ (0x3000, high) ∷ (0x2000, medium) ∷ (0x1000, low) ∷ []

unfoldable pub to_integrity_level : ℕ → IntegrityLevel
to_integrity_level rid = first_floor integrity_bands rid untrusted

abbrev pub task_has_not_run : ℕ
task_has_not_run = 0x41303

abbrev pub task_running : ℕ
task_running = 0x41301

-- `value & 0xFFFFFFFF`, of a number of any sign
unfoldable pub unsigned_32 : ℤ → ℕ
unsigned_32 (pos n) = n % 4294967296
unsigned_32 (negsuc n) = 4294967295 - n % 4294967296

abbrev pub is_no_result : ℕ → Bool
is_no_result code = code == task_has_not_run || code == task_running

unfoldable pub to_task_result : ℤ → Option ℕ
to_task_result value = let code = unsigned_32 value in if is_no_result code then none else some code

abbrev pub task_instances_by_int : List (ℕ × TaskMultipleInstances)
task_instances_by_int = (0, parallel) ∷ (1, queue) ∷ (2, ignore_new) ∷ (3, stop_existing) ∷ []

unfoldable pub to_task_multiple_instances : ℕ → Option TaskMultipleInstances
to_task_multiple_instances value = entry task_instances_by_int value

-- The values of `TaskMultipleInstances`.
abbrev pub task_multiple_instances_value : TaskMultipleInstances → Text
task_multiple_instances_value parallel = codes "Parallel"
task_multiple_instances_value queue = codes "Queue"
task_multiple_instances_value ignore_new = codes "IgnoreNew"
task_multiple_instances_value stop_existing = codes "StopExisting"

-- `none` is a `KeyError`
unfoldable pub from_task_multiple_instances : TaskMultipleInstances → Option ℕ
from_task_multiple_instances policy =
    key_of task_multiple_instances_value task_instances_by_int policy

unfoldable pub to_ace_type : ℕ → AceType
to_ace_type ace_type = if any (λ d. d == ace_type) (1 ∷ 6 ∷ 10 ∷ 12 ∷ []) then deny else allow

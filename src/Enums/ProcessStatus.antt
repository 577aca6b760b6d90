-- ===== src/Enums/ProcessStatus.antt =====
-- `ProcessStatus` of src/pwshpy/domain/enums.py.
use pwshpy.Base.{◌≡◌, ◌↔◌, refl, [], ◌∷◌, List, Option, some, ap, ◌∙◌}
use pwshpy.Text.{Text, codes, text_eq}
use pwshpy.Enums.ByValue.{by_value, by_value→eq}

pub data ProcessStatus : Type 0 where
  running : ProcessStatus
  sleeping : ProcessStatus
  disk_sleep : ProcessStatus
  stopped : ProcessStatus
  tracing_stop : ProcessStatus
  zombie : ProcessStatus
  dead : ProcessStatus
  wake_kill : ProcessStatus
  waking : ProcessStatus
  parked : ProcessStatus
  idle : ProcessStatus
  locked : ProcessStatus
  waiting : ProcessStatus
  suspended : ProcessStatus
  unknown : ProcessStatus

abbrev pub process_status_members : List ProcessStatus
process_status_members =
    running ∷ sleeping ∷ disk_sleep ∷ stopped ∷ tracing_stop ∷ zombie ∷ dead ∷ wake_kill ∷ waking
    ∷ parked ∷ idle ∷ locked ∷ waiting ∷ suspended ∷ unknown ∷ []

unfoldable pub process_status_value : ProcessStatus → Text
process_status_value running = codes "running"
process_status_value sleeping = codes "sleeping"
process_status_value disk_sleep = codes "disk-sleep"
process_status_value stopped = codes "stopped"
process_status_value tracing_stop = codes "tracing-stop"
process_status_value zombie = codes "zombie"
process_status_value dead = codes "dead"
process_status_value wake_kill = codes "wake-kill"
process_status_value waking = codes "waking"
process_status_value parked = codes "parked"
process_status_value idle = codes "idle"
process_status_value locked = codes "locked"
process_status_value waiting = codes "waiting"
process_status_value suspended = codes "suspended"
process_status_value unknown = codes "unknown"

-- `ProcessStatus(text)`, `none` for a `ValueError`
unfoldable pub process_status_of : Text → Option ProcessStatus
unfolding by_value process_status_value
process_status_of text = by_value process_status_value process_status_members text

process_status_of-value :
    (member : ProcessStatus) → process_status_of (process_status_value member) ≡ some member
unfolding process_status_of process_status_value text_eq
process_status_of-value running = refl
process_status_of-value sleeping = refl
process_status_of-value disk_sleep = refl
process_status_of-value stopped = refl
process_status_of-value tracing_stop = refl
process_status_of-value zombie = refl
process_status_of-value dead = refl
process_status_of-value wake_kill = refl
process_status_of-value waking = refl
process_status_of-value parked = refl
process_status_of-value idle = refl
process_status_of-value locked = refl
process_status_of-value waiting = refl
process_status_of-value suspended = refl
process_status_of-value unknown = refl

-- A text stands for a member of `ProcessStatus` exactly if it is the member's value.
pub process_status_of_iff :
    (text : Text) (member : ProcessStatus)
    → (process_status_of text ≡ some member) ↔ (text ≡ process_status_value member)
unfolding process_status_of
process_status_of_iff text member = (
  by_value→eq process_status_value process_status_members text member,
  λ e. ap process_status_of e ∙ process_status_of-value member,
)

-- ===== src/Enums/TaskState.antt =====
-- `TaskState` of src/pwshpy/domain/enums.py.
use pwshpy.Base.{◌≡◌, ◌↔◌, refl, [], ◌∷◌, List, Option, some, ap, ◌∙◌}
use pwshpy.Text.{Text, codes, text_eq}
use pwshpy.Enums.ByValue.{by_value, by_value→eq}

pub data TaskState : Type 0 where
  unknown : TaskState
  disabled : TaskState
  queued : TaskState
  ready : TaskState
  running : TaskState

abbrev pub task_state_members : List TaskState
task_state_members = unknown ∷ disabled ∷ queued ∷ ready ∷ running ∷ []

unfoldable pub task_state_value : TaskState → Text
task_state_value unknown = codes "Unknown"
task_state_value disabled = codes "Disabled"
task_state_value queued = codes "Queued"
task_state_value ready = codes "Ready"
task_state_value running = codes "Running"

-- `TaskState(text)`, `none` for a `ValueError`
unfoldable pub task_state_of : Text → Option TaskState
unfolding by_value task_state_value
task_state_of text = by_value task_state_value task_state_members text

task_state_of-value : (member : TaskState) → task_state_of (task_state_value member) ≡ some member
unfolding task_state_of task_state_value text_eq
task_state_of-value unknown = refl
task_state_of-value disabled = refl
task_state_of-value queued = refl
task_state_of-value ready = refl
task_state_of-value running = refl

-- A text stands for a member of `TaskState` exactly if it is the member's value.
pub task_state_of_iff :
    (text : Text) (member : TaskState)
    → (task_state_of text ≡ some member) ↔ (text ≡ task_state_value member)
unfolding task_state_of
task_state_of_iff text member = (
  by_value→eq task_state_value task_state_members text member,
  λ e. ap task_state_of e ∙ task_state_of-value member,
)

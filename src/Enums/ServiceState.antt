-- ===== src/Enums/ServiceState.antt =====
-- `ServiceState` of src/pwshpy/domain/enums.py.
use pwshpy.Base.{◌≡◌, ◌↔◌, refl, [], ◌∷◌, List, Option, some, ap, ◌∙◌}
use pwshpy.Text.{Text, codes, text_eq}
use pwshpy.Enums.ByValue.{by_value, by_value→eq}

pub data ServiceState : Type 0 where
  stopped : ServiceState
  start_pending : ServiceState
  stop_pending : ServiceState
  running : ServiceState
  continue_pending : ServiceState
  pause_pending : ServiceState
  paused : ServiceState

abbrev pub service_state_members : List ServiceState
service_state_members =
    stopped ∷ start_pending ∷ stop_pending ∷ running ∷ continue_pending ∷ pause_pending ∷ paused
    ∷ []

unfoldable pub service_state_value : ServiceState → Text
service_state_value stopped = codes "Stopped"
service_state_value start_pending = codes "StartPending"
service_state_value stop_pending = codes "StopPending"
service_state_value running = codes "Running"
service_state_value continue_pending = codes "ContinuePending"
service_state_value pause_pending = codes "PausePending"
service_state_value paused = codes "Paused"

-- `ServiceState(text)`, `none` for a `ValueError`
unfoldable pub service_state_of : Text → Option ServiceState
unfolding by_value service_state_value
service_state_of text = by_value service_state_value service_state_members text

service_state_of-value :
    (member : ServiceState) → service_state_of (service_state_value member) ≡ some member
unfolding service_state_of service_state_value text_eq
service_state_of-value stopped = refl
service_state_of-value start_pending = refl
service_state_of-value stop_pending = refl
service_state_of-value running = refl
service_state_of-value continue_pending = refl
service_state_of-value pause_pending = refl
service_state_of-value paused = refl

-- A text stands for a member of `ServiceState` exactly if it is the member's value.
pub service_state_of_iff :
    (text : Text) (member : ServiceState)
    → (service_state_of text ≡ some member) ↔ (text ≡ service_state_value member)
unfolding service_state_of
service_state_of_iff text member = (
  by_value→eq service_state_value service_state_members text member,
  λ e. ap service_state_of e ∙ service_state_of-value member,
)

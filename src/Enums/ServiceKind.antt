-- ===== src/Enums/ServiceKind.antt =====
-- `ServiceKind` of src/pwshpy/domain/enums.py.
use pwshpy.Base.{◌≡◌, ◌↔◌, refl, [], ◌∷◌, List, Option, some, ap, ◌∙◌}
use pwshpy.Text.{Text, codes, text_eq}
use pwshpy.Enums.ByValue.{by_value, by_value→eq}

pub data ServiceKind : Type 0 where
  kernel_driver : ServiceKind
  file_system_driver : ServiceKind
  adapter : ServiceKind
  recognizer_driver : ServiceKind
  win32_own_process : ServiceKind
  win32_share_process : ServiceKind
  interactive_process : ServiceKind

abbrev pub service_kind_members : List ServiceKind
service_kind_members =
    kernel_driver ∷ file_system_driver ∷ adapter ∷ recognizer_driver ∷ win32_own_process
    ∷ win32_share_process ∷ interactive_process ∷ []

unfoldable pub service_kind_value : ServiceKind → Text
service_kind_value kernel_driver = codes "KernelDriver"
service_kind_value file_system_driver = codes "FileSystemDriver"
service_kind_value adapter = codes "Adapter"
service_kind_value recognizer_driver = codes "RecognizerDriver"
service_kind_value win32_own_process = codes "Win32OwnProcess"
service_kind_value win32_share_process = codes "Win32ShareProcess"
service_kind_value interactive_process = codes "InteractiveProcess"

-- `ServiceKind(text)`, `none` for a `ValueError`
unfoldable pub service_kind_of : Text → Option ServiceKind
unfolding by_value service_kind_value
service_kind_of text = by_value service_kind_value service_kind_members text

service_kind_of-value :
    (member : ServiceKind) → service_kind_of (service_kind_value member) ≡ some member
unfolding service_kind_of service_kind_value text_eq
service_kind_of-value kernel_driver = refl
service_kind_of-value file_system_driver = refl
service_kind_of-value adapter = refl
service_kind_of-value recognizer_driver = refl
service_kind_of-value win32_own_process = refl
service_kind_of-value win32_share_process = refl
service_kind_of-value interactive_process = refl

-- A text stands for a member of `ServiceKind` exactly if it is the member's value.
pub service_kind_of_iff :
    (text : Text) (member : ServiceKind)
    → (service_kind_of text ≡ some member) ↔ (text ≡ service_kind_value member)
unfolding service_kind_of
service_kind_of_iff text member = (
  by_value→eq service_kind_value service_kind_members text member,
  λ e. ap service_kind_of e ∙ service_kind_of-value member,
)

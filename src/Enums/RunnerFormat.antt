-- ===== src/Enums/RunnerFormat.antt =====
-- `RunnerFormat` of src/pwshpy/domain/enums.py.
use pwshpy.Base.{◌≡◌, ◌↔◌, refl, [], ◌∷◌, List, Option, some, ap, ◌∙◌}
use pwshpy.Text.{Text, codes, text_eq}
use pwshpy.Enums.ByValue.{by_value, by_value→eq}

pub data RunnerFormat : Type 0 where
  ps1 : RunnerFormat
  sh : RunnerFormat
  auto : RunnerFormat

abbrev pub runner_format_members : List RunnerFormat
runner_format_members = ps1 ∷ sh ∷ auto ∷ []

unfoldable pub runner_format_value : RunnerFormat → Text
runner_format_value ps1 = codes "ps1"
runner_format_value sh = codes "sh"
runner_format_value auto = codes "auto"

-- `RunnerFormat(text)`, `none` for a `ValueError`
unfoldable pub runner_format_of : Text → Option RunnerFormat
unfolding by_value runner_format_value
runner_format_of text = by_value runner_format_value runner_format_members text

runner_format_of-value :
    (member : RunnerFormat) → runner_format_of (runner_format_value member) ≡ some member
unfolding runner_format_of runner_format_value text_eq
runner_format_of-value ps1 = refl
runner_format_of-value sh = refl
runner_format_of-value auto = refl

-- A text stands for a member of `RunnerFormat` exactly if it is the member's value.
pub runner_format_of_iff :
    (text : Text) (member : RunnerFormat)
    → (runner_format_of text ≡ some member) ↔ (text ≡ runner_format_value member)
unfolding runner_format_of
runner_format_of_iff text member = (
  by_value→eq runner_format_value runner_format_members text member,
  λ e. ap runner_format_of e ∙ runner_format_of-value member,
)

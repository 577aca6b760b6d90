-- ===== src/Enums/EventLevel.antt =====
-- `EventLevel` of src/pwshpy/domain/enums.py.
use pwshpy.Base.{◌≡◌, ◌↔◌, refl, [], ◌∷◌, List, Option, some, ap, ◌∙◌}
use pwshpy.Text.{Text, codes, text_eq}
use pwshpy.Enums.ByValue.{by_value, by_value→eq}

pub data EventLevel : Type 0 where
  log_always : EventLevel
  critical : EventLevel
  error : EventLevel
  warning : EventLevel
  information : EventLevel
  verbose : EventLevel

abbrev pub event_level_members : List EventLevel
event_level_members = log_always ∷ critical ∷ error ∷ warning ∷ information ∷ verbose ∷ []

unfoldable pub event_level_value : EventLevel → Text
event_level_value log_always = codes "LogAlways"
event_level_value critical = codes "Critical"
event_level_value error = codes "Error"
event_level_value warning = codes "Warning"
event_level_value information = codes "Information"
event_level_value verbose = codes "Verbose"

-- `EventLevel(text)`, `none` for a `ValueError`
unfoldable pub event_level_of : Text → Option EventLevel
unfolding by_value event_level_value
event_level_of text = by_value event_level_value event_level_members text

event_level_of-value :
    (member : EventLevel) → event_level_of (event_level_value member) ≡ some member
unfolding event_level_of event_level_value text_eq
event_level_of-value log_always = refl
event_level_of-value critical = refl
event_level_of-value error = refl
event_level_of-value warning = refl
event_level_of-value information = refl
event_level_of-value verbose = refl

-- A text stands for a member of `EventLevel` exactly if it is the member's value.
pub event_level_of_iff :
    (text : Text) (member : EventLevel)
    → (event_level_of text ≡ some member) ↔ (text ≡ event_level_value member)
unfolding event_level_of
event_level_of_iff text member = (
  by_value→eq event_level_value event_level_members text member,
  λ e. ap event_level_of e ∙ event_level_of-value member,
)

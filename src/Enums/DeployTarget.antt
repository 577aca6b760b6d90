-- ===== src/Enums/DeployTarget.antt =====
-- `DeployTarget` of src/pwshpy/domain/enums.py.
use pwshpy.Base.{◌≡◌, ◌↔◌, refl, [], ◌∷◌, List, Option, some, ap, ◌∙◌}
use pwshpy.Text.{Text, codes, text_eq}
use pwshpy.Enums.ByValue.{by_value, by_value→eq}

pub data DeployTarget : Type 0 where
  app : DeployTarget
  host : DeployTarget
  user : DeployTarget

abbrev pub deploy_target_members : List DeployTarget
deploy_target_members = app ∷ host ∷ user ∷ []

unfoldable pub deploy_target_value : DeployTarget → Text
deploy_target_value app = codes "app"
deploy_target_value host = codes "host"
deploy_target_value user = codes "user"

-- `DeployTarget(text)`, `none` for a `ValueError`
unfoldable pub deploy_target_of : Text → Option DeployTarget
unfolding by_value deploy_target_value
deploy_target_of text = by_value deploy_target_value deploy_target_members text

deploy_target_of-value :
    (member : DeployTarget) → deploy_target_of (deploy_target_value member) ≡ some member
unfolding deploy_target_of deploy_target_value text_eq
deploy_target_of-value app = refl
deploy_target_of-value host = refl
deploy_target_of-value user = refl

-- A text stands for a member of `DeployTarget` exactly if it is the member's value.
pub deploy_target_of_iff :
    (text : Text) (member : DeployTarget)
    → (deploy_target_of text ≡ some member) ↔ (text ≡ deploy_target_value member)
unfolding deploy_target_of
deploy_target_of_iff text member = (
  by_value→eq deploy_target_value deploy_target_members text member,
  λ e. ap deploy_target_of e ∙ deploy_target_of-value member,
)

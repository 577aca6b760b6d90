-- ===== src/Enums/ImageArchitecture.antt =====
-- `ImageArchitecture` of src/pwshpy/domain/enums.py.
use pwshpy.Base.{◌≡◌, ◌↔◌, refl, [], ◌∷◌, List, Option, some, ap, ◌∙◌}
use pwshpy.Text.{Text, codes, text_eq}
use pwshpy.Enums.ByValue.{by_value, by_value→eq}

pub data ImageArchitecture : Type 0 where
  x86 : ImageArchitecture
  arm : ImageArchitecture
  ia64 : ImageArchitecture
  x64 : ImageArchitecture
  arm64 : ImageArchitecture
  unknown : ImageArchitecture

abbrev pub image_architecture_members : List ImageArchitecture
image_architecture_members = x86 ∷ arm ∷ ia64 ∷ x64 ∷ arm64 ∷ unknown ∷ []

unfoldable pub image_architecture_value : ImageArchitecture → Text
image_architecture_value x86 = codes "x86"
image_architecture_value arm = codes "ARM"
image_architecture_value ia64 = codes "ia64"
image_architecture_value x64 = codes "x64"
image_architecture_value arm64 = codes "ARM64"
image_architecture_value unknown = codes "Unknown"

-- `ImageArchitecture(text)`, `none` for a `ValueError`
unfoldable pub image_architecture_of : Text → Option ImageArchitecture
unfolding by_value image_architecture_value
image_architecture_of text = by_value image_architecture_value image_architecture_members text

image_architecture_of-value :
    (member : ImageArchitecture)
    → image_architecture_of (image_architecture_value member) ≡ some member
unfolding image_architecture_of image_architecture_value text_eq
image_architecture_of-value x86 = refl
image_architecture_of-value arm = refl
image_architecture_of-value ia64 = refl
image_architecture_of-value x64 = refl
image_architecture_of-value arm64 = refl
image_architecture_of-value unknown = refl

-- A text stands for a member of `ImageArchitecture` exactly if it is the member's value.
pub image_architecture_of_iff :
    (text : Text) (member : ImageArchitecture)
    → (image_architecture_of text ≡ some member) ↔ (text ≡ image_architecture_value member)
unfolding image_architecture_of
image_architecture_of_iff text member = (
  by_value→eq image_architecture_value image_architecture_members text member,
  λ e. ap image_architecture_of e ∙ image_architecture_of-value member,
)

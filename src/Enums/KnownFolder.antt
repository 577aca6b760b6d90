-- ===== src/Enums/KnownFolder.antt =====
-- `KnownFolder` of src/pwshpy/domain/enums.py.
use pwshpy.Base.{◌≡◌, ◌↔◌, refl, [], ◌∷◌, List, Option, some, ap, ◌∙◌}
use pwshpy.Text.{Text, codes, text_eq}
use pwshpy.Enums.ByValue.{by_value, by_value→eq}

pub data KnownFolder : Type 0 where
  desktop : KnownFolder
  documents : KnownFolder
  local_app_data : KnownFolder
  roaming_app_data : KnownFolder
  program_data : KnownFolder
  programs : KnownFolder

abbrev pub known_folder_members : List KnownFolder
known_folder_members =
    desktop ∷ documents ∷ local_app_data ∷ roaming_app_data ∷ program_data ∷ programs ∷ []

unfoldable pub known_folder_value : KnownFolder → Text
known_folder_value desktop = codes "Desktop"
known_folder_value documents = codes "MyDocuments"
known_folder_value local_app_data = codes "LocalApplicationData"
known_folder_value roaming_app_data = codes "ApplicationData"
known_folder_value program_data = codes "CommonApplicationData"
known_folder_value programs = codes "Programs"

-- `KnownFolder(text)`, `none` for a `ValueError`
unfoldable pub known_folder_of : Text → Option KnownFolder
unfolding by_value known_folder_value
known_folder_of text = by_value known_folder_value known_folder_members text

known_folder_of-value :
    (member : KnownFolder) → known_folder_of (known_folder_value member) ≡ some member
unfolding known_folder_of known_folder_value text_eq
known_folder_of-value desktop = refl
known_folder_of-value documents = refl
known_folder_of-value local_app_data = refl
known_folder_of-value roaming_app_data = refl
known_folder_of-value program_data = refl
known_folder_of-value programs = refl

-- A text stands for a member of `KnownFolder` exactly if it is the member's value.
pub known_folder_of_iff :
    (text : Text) (member : KnownFolder)
    → (known_folder_of text ≡ some member) ↔ (text ≡ known_folder_value member)
unfolding known_folder_of
known_folder_of_iff text member = (
  by_value→eq known_folder_value known_folder_members text member,
  λ e. ap known_folder_of e ∙ known_folder_of-value member,
)

-- ===== src/Enums/AclEntryKind.antt =====
-- `AclEntryKind` of src/pwshpy/domain/enums.py.
use pwshpy.Base.{◌≡◌, ◌↔◌, refl, [], ◌∷◌, List, Option, some, ap, ◌∙◌}
use pwshpy.Text.{Text, codes, text_eq}
use pwshpy.Enums.ByValue.{by_value, by_value→eq}

pub data AclEntryKind : Type 0 where
  trustee : AclEntryKind
  owner : AclEntryKind
  user : AclEntryKind
  owning_group : AclEntryKind
  group : AclEntryKind
  mask : AclEntryKind
  other : AclEntryKind

abbrev pub acl_entry_kind_members : List AclEntryKind
acl_entry_kind_members = trustee ∷ owner ∷ user ∷ owning_group ∷ group ∷ mask ∷ other ∷ []

unfoldable pub acl_entry_kind_value : AclEntryKind → Text
acl_entry_kind_value trustee = codes "Trustee"
acl_entry_kind_value owner = codes "Owner"
acl_entry_kind_value user = codes "User"
acl_entry_kind_value owning_group = codes "OwningGroup"
acl_entry_kind_value group = codes "Group"
acl_entry_kind_value mask = codes "Mask"
acl_entry_kind_value other = codes "Other"

-- `AclEntryKind(text)`, `none` for a `ValueError`
unfoldable pub acl_entry_kind_of : Text → Option AclEntryKind
unfolding by_value acl_entry_kind_value
acl_entry_kind_of text = by_value acl_entry_kind_value acl_entry_kind_members text

acl_entry_kind_of-value :
    (member : AclEntryKind) → acl_entry_kind_of (acl_entry_kind_value member) ≡ some member
unfolding acl_entry_kind_of acl_entry_kind_value text_eq
acl_entry_kind_of-value trustee = refl
acl_entry_kind_of-value owner = refl
acl_entry_kind_of-value user = refl
acl_entry_kind_of-value owning_group = refl
acl_entry_kind_of-value group = refl
acl_entry_kind_of-value mask = refl
acl_entry_kind_of-value other = refl

-- A text stands for a member of `AclEntryKind` exactly if it is the member's value.
pub acl_entry_kind_of_iff :
    (text : Text) (member : AclEntryKind)
    → (acl_entry_kind_of text ≡ some member) ↔ (text ≡ acl_entry_kind_value member)
unfolding acl_entry_kind_of
acl_entry_kind_of_iff text member = (
  by_value→eq acl_entry_kind_value acl_entry_kind_members text member,
  λ e. ap acl_entry_kind_of e ∙ acl_entry_kind_of-value member,
)

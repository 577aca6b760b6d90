-- ===== src/Enums/AddressFamily.antt =====
-- `AddressFamily` of src/pwshpy/domain/enums.py.
use pwshpy.Base.{◌≡◌, ◌↔◌, refl, [], ◌∷◌, List, Option, some, ap, ◌∙◌}
use pwshpy.Text.{Text, codes, text_eq}
use pwshpy.Enums.ByValue.{by_value, by_value→eq}

pub data AddressFamily : Type 0 where
  ipv4 : AddressFamily
  ipv6 : AddressFamily
  other : AddressFamily

abbrev pub address_family_members : List AddressFamily
address_family_members = ipv4 ∷ ipv6 ∷ other ∷ []

unfoldable pub address_family_value : AddressFamily → Text
address_family_value ipv4 = codes "IPv4"
address_family_value ipv6 = codes "IPv6"
address_family_value other = codes "other"

-- `AddressFamily(text)`, `none` for a `ValueError`
unfoldable pub address_family_of : Text → Option AddressFamily
unfolding by_value address_family_value
address_family_of text = by_value address_family_value address_family_members text

address_family_of-value :
    (member : AddressFamily) → address_family_of (address_family_value member) ≡ some member
unfolding address_family_of address_family_value text_eq
address_family_of-value ipv4 = refl
address_family_of-value ipv6 = refl
address_family_of-value other = refl

-- A text stands for a member of `AddressFamily` exactly if it is the member's value.
pub address_family_of_iff :
    (text : Text) (member : AddressFamily)
    → (address_family_of text ≡ some member) ↔ (text ≡ address_family_value member)
unfolding address_family_of
address_family_of_iff text member = (
  by_value→eq address_family_value address_family_members text member,
  λ e. ap address_family_of e ∙ address_family_of-value member,
)

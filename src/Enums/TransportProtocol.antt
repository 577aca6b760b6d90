-- ===== src/Enums/TransportProtocol.antt =====
-- `TransportProtocol` of src/pwshpy/domain/enums.py.
use pwshpy.Base.{◌≡◌, ◌↔◌, refl, [], ◌∷◌, List, Option, some, ap, ◌∙◌}
use pwshpy.Text.{Text, codes, text_eq}
use pwshpy.Enums.ByValue.{by_value, by_value→eq}

pub data TransportProtocol : Type 0 where
  tcp : TransportProtocol
  udp : TransportProtocol

abbrev pub transport_protocol_members : List TransportProtocol
transport_protocol_members = tcp ∷ udp ∷ []

unfoldable pub transport_protocol_value : TransportProtocol → Text
transport_protocol_value tcp = codes "tcp"
transport_protocol_value udp = codes "udp"

-- `TransportProtocol(text)`, `none` for a `ValueError`
unfoldable pub transport_protocol_of : Text → Option TransportProtocol
unfolding by_value transport_protocol_value
transport_protocol_of text = by_value transport_protocol_value transport_protocol_members text

transport_protocol_of-value :
    (member : TransportProtocol)
    → transport_protocol_of (transport_protocol_value member) ≡ some member
unfolding transport_protocol_of transport_protocol_value text_eq
transport_protocol_of-value tcp = refl
transport_protocol_of-value udp = refl

-- A text stands for a member of `TransportProtocol` exactly if it is the member's value.
pub transport_protocol_of_iff :
    (text : Text) (member : TransportProtocol)
    → (transport_protocol_of text ≡ some member) ↔ (text ≡ transport_protocol_value member)
unfolding transport_protocol_of
transport_protocol_of_iff text member = (
  by_value→eq transport_protocol_value transport_protocol_members text member,
  λ e. ap transport_protocol_of e ∙ transport_protocol_of-value member,
)

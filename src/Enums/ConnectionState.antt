-- ===== src/Enums/ConnectionState.antt =====
-- `ConnectionState` of src/pwshpy/domain/enums.py.
use pwshpy.Base.{◌≡◌, ◌↔◌, refl, [], ◌∷◌, List, Option, some, ap, ◌∙◌}
use pwshpy.Text.{Text, codes, text_eq}
use pwshpy.Enums.ByValue.{by_value, by_value→eq}

pub data ConnectionState : Type 0 where
  established : ConnectionState
  syn_sent : ConnectionState
  syn_recv : ConnectionState
  fin_wait1 : ConnectionState
  fin_wait2 : ConnectionState
  time_wait : ConnectionState
  close : ConnectionState
  close_wait : ConnectionState
  last_ack : ConnectionState
  listen : ConnectionState
  closing : ConnectionState
  none_state : ConnectionState

abbrev pub connection_state_members : List ConnectionState
connection_state_members =
    established ∷ syn_sent ∷ syn_recv ∷ fin_wait1 ∷ fin_wait2 ∷ time_wait ∷ close ∷ close_wait
    ∷ last_ack ∷ listen ∷ closing ∷ none_state ∷ []

unfoldable pub connection_state_value : ConnectionState → Text
connection_state_value established = codes "ESTABLISHED"
connection_state_value syn_sent = codes "SYN_SENT"
connection_state_value syn_recv = codes "SYN_RECV"
connection_state_value fin_wait1 = codes "FIN_WAIT1"
connection_state_value fin_wait2 = codes "FIN_WAIT2"
connection_state_value time_wait = codes "TIME_WAIT"
connection_state_value close = codes "CLOSE"
connection_state_value close_wait = codes "CLOSE_WAIT"
connection_state_value last_ack = codes "LAST_ACK"
connection_state_value listen = codes "LISTEN"
connection_state_value closing = codes "CLOSING"
connection_state_value none_state = codes "NONE"

-- `ConnectionState(text)`, `none` for a `ValueError`
unfoldable pub connection_state_of : Text → Option ConnectionState
unfolding by_value connection_state_value
connection_state_of text = by_value connection_state_value connection_state_members text

connection_state_of-value :
    (member : ConnectionState) → connection_state_of (connection_state_value member) ≡ some member
unfolding connection_state_of connection_state_value text_eq
connection_state_of-value established = refl
connection_state_of-value syn_sent = refl
connection_state_of-value syn_recv = refl
connection_state_of-value fin_wait1 = refl
connection_state_of-value fin_wait2 = refl
connection_state_of-value time_wait = refl
connection_state_of-value close = refl
connection_state_of-value close_wait = refl
connection_state_of-value last_ack = refl
connection_state_of-value listen = refl
connection_state_of-value closing = refl
connection_state_of-value none_state = refl

-- A text stands for a member of `ConnectionState` exactly if it is the member's value.
pub connection_state_of_iff :
    (text : Text) (member : ConnectionState)
    → (connection_state_of text ≡ some member) ↔ (text ≡ connection_state_value member)
unfolding connection_state_of
connection_state_of_iff text member = (
  by_value→eq connection_state_value connection_state_members text member,
  λ e. ap connection_state_of e ∙ connection_state_of-value member,
)

-- ===== src/Scheduling/Identity.antt =====
-- Who a task runs as: `_SID`, `_UID`, `_is_uid` and `_identity` of src/pwshpy/domain/scheduling.py,
-- and `WellKnownSid` of src/pwshpy/domain/enums.py.
pub mod Number
pub mod Kinds
use pwshpy.Base.{
  ℕ, ◌+◌, ◌-◌, ◌*◌, Bool, true, false, ◌&&◌, ◌||◌, List, [], ◌∷◌, Option, none, some, leb, ◌==◌,
  if◌then◌else◌, all, drop, length, Result, ok, err,
}
use pwshpy.Text.{Text, codes, starts_with, split}

pub data WellKnownSid : Type 0 where
  everyone local_system local_service network_service authenticated_users : WellKnownSid
  administrators users guests power_users remote_desktop_users : WellKnownSid

-- The value of a member.
unfoldable pub sid_value : WellKnownSid → Text
sid_value everyone = codes "S-1-1-0"
sid_value local_system = codes "S-1-5-18"
sid_value local_service = codes "S-1-5-19"
sid_value network_service = codes "S-1-5-20"
sid_value authenticated_users = codes "S-1-5-11"
sid_value administrators = codes "S-1-5-32-544"
sid_value users = codes "S-1-5-32-545"
sid_value guests = codes "S-1-5-32-546"
sid_value power_users = codes "S-1-5-32-547"
sid_value remote_desktop_users = codes "S-1-5-32-555"

-- `[0-9]`
abbrev pub is_digit : ℕ → Bool
is_digit c = leb b'0' c && leb c b'9'

-- `[0-9]+`
unfoldable pub is_number : Text → Bool
is_number [] = false
is_number (c ∷ s) = all is_digit (c ∷ s)

-- `[0-9]+(?:-[0-9]+)+`, of the parts between the dashes
abbrev pub are_numbers : List Text → Bool
are_numbers [] = false
are_numbers (p ∷ []) = false
are_numbers (p ∷ q ∷ ps) = all is_number (p ∷ q ∷ ps)

-- `_SID.fullmatch(text)`
unfoldable pub is_sid : Text → Bool
unfolding is_number
is_sid text = starts_with (codes "S-1-") text && are_numbers (split b'-' (drop 4 text))

-- `_UID.fullmatch(text)`
unfoldable pub is_canonical : Text → Bool
is_canonical [] = false
is_canonical (c ∷ s) =
    c == b'0' && length s == 0 || leb b'1' c && leb c b'9' && all is_digit s && leb (length s) 9

-- `int(text)`, of a text of digits
unfoldable pub int_from : ℕ → Text → ℕ
int_from value [] = value
int_from value (c ∷ s) = int_from (value * 10 + (c - b'0')) s

abbrev pub int : Text → ℕ
int text = int_from 0 text

abbrev pub uid_max : ℕ
uid_max = 4294967295

unfoldable pub is_uid : Text → Bool
is_uid text = is_canonical text && leb (int text) uid_max

-- A `ValueError`.
pub data IdentityError : Type 0 where
  not_sid_or_uid : IdentityError

-- The values that the validator may be given: `None`, a member, a text, or anything else.
pub data Given : Type 0 where
  nothing : Given
  member : WellKnownSid → Given
  text : Text → Given
  other : Given

unfoldable pub identity_of_text : Text → Result IdentityError (Option Text)
identity_of_text t = if is_sid t || is_uid t then ok (some t) else err not_sid_or_uid

unfoldable pub identity : Given → Result IdentityError (Option Text)
identity nothing = ok none
identity (member sid) = identity_of_text (sid_value sid)
identity (text t) = identity_of_text t
identity other = err not_sid_or_uid

-- ===== src/Scheduling/Tests.antt =====
-- The inputs of a scheduled task at concrete values, most of them from the doctests of
-- src/pwshpy/domain/scheduling.py.
use pwshpy.Base.{◌≡◌, ◌↔◌, ◌≤◌, refl, true, false, none, some, ok, err}
use pwshpy.Base.Int.{pos}
use pwshpy.Text.{Text, codes, starts_with, split}
use pwshpy.Scheduling.Identity.{
  sid_value, is_number, is_sid, is_canonical, int, int_from, uid_max, is_uid, text,
  identity_of_text, identity, not_sid_or_uid,
}
use pwshpy.Scheduling.Identity.Number.{is_uid-injective}
use pwshpy.Scheduling.Identity.Kinds.{IsOneKind, identity-IsOneKind}
use pwshpy.Scheduling.Principal.{
  new_principal, system, highest, limited, effective_logon_type, interactive_token, service_account,
}
use pwshpy.Scheduling.Principal.LogonType.{
  IsServiceSid, without_logon_type, effective_logon_type_iff,
}
use pwshpy.Scheduling.Settings.{
  whole_non_negative_seconds, fractional_time_limit, every_days_in_range,
}
use pwshpy.Scheduling.Settings.Accepted.{IsWholeLimit, whole_non_negative_seconds_iff}

uid_largest : is_uid (codes "4294967295") ≡ true
unfolding is_uid is_canonical int_from
uid_largest = refl

uid_too_large : is_uid (codes "4294967296") ≡ false
unfolding is_uid is_canonical int_from
uid_too_large = refl

uid_padded : is_uid (codes "01") ≡ false
unfolding is_uid is_canonical int_from
uid_padded = refl

name_refused : identity (text (codes "Administrators")) ≡ err not_sid_or_uid
unfolding identity identity_of_text is_sid is_uid is_canonical starts_with
name_refused = refl

uid_accepted : identity (text (codes "1000")) ≡ ok (some (codes "1000"))
unfolding identity identity_of_text is_sid is_uid is_canonical int_from starts_with
uid_accepted = refl

system_accepted :
    system
    ≡ ok (record { user_id = some (codes "S-1-5-18"); logon_type = none; run_level = highest })
unfolding new_principal identity identity_of_text sid_value is_sid is_number starts_with split
system_accepted = refl

half_second : whole_non_negative_seconds (some (pos 500000)) ≡ err fractional_time_limit
unfolding whole_non_negative_seconds
half_second = refl

days_of_a_year : every_days_in_range (pos 366) ≡ false
unfolding every_days_in_range
days_of_a_year = refl

is_uid-injective_example :
    (int (codes "4294967295") ≤ uid_max)
    × (int (codes "4294967295") ≡ int (codes "4294967295")
        → codes "4294967295" ≡ codes "4294967295")
is_uid-injective_example =
    is_uid-injective (codes "4294967295") (codes "4294967295") uid_largest uid_largest

identity-IsOneKind_example :
    IsOneKind (codes "1000") × (identity (text (codes "1000")) ≡ ok (some (codes "1000")))
identity-IsOneKind_example = identity-IsOneKind (text (codes "1000")) (codes "1000") uid_accepted

effective_logon_type_iff_example :
    ((effective_logon_type (without_logon_type (some (codes "S-1-5-18")) limited)
        ≡ interactive_token)
      ↔ (some (codes "S-1-5-18") ≡ none))
    × ((effective_logon_type (without_logon_type (some (codes "S-1-5-18")) limited)
          ≡ service_account)
        ↔ ((t : Text) × (some (codes "S-1-5-18") ≡ some t) × IsServiceSid t))
effective_logon_type_iff_example = effective_logon_type_iff (some (codes "S-1-5-18")) limited

whole_non_negative_seconds_iff_example :
    (whole_non_negative_seconds (some (pos 3000000)) ≡ ok (some (pos 3000000)))
    ↔ ((some (pos 3000000) ≡ some (pos 3000000)) × IsWholeLimit (some (pos 3000000)))
whole_non_negative_seconds_iff_example =
    whole_non_negative_seconds_iff (some (pos 3000000)) (some (pos 3000000))

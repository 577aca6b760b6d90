-- ===== src/Scheduling/Settings.antt =====
-- `TaskSettings` and the triggers of src/pwshpy/domain/scheduling.py. A `timedelta` is its number
-- of microseconds.
pub mod Accepted
use pwshpy.Base.{
  ℕ, ◌%◌, ◌*◌, Bool, Option, none, some, leb, ltb, ◌==◌, not, if◌then◌else◌, ◌&&◌, Result, ok, err,
}
use pwshpy.Base.Int.{ℤ, pos, negsuc}
use pwshpy.Text.{Text}
use pwshpy.Scheduling.Identity.{Given, IdentityError, identity}

pub data TaskMultipleInstances : Type 0 where
  parallel queue ignore_new stop_existing : TaskMultipleInstances

pub data SettingsError : Type 0 where
  negative_time_limit fractional_time_limit time_limit_too_long : SettingsError

pub record TaskSettings : Type 0 where
  pub allow_start_if_on_batteries : Option Bool
  pub stop_if_going_on_batteries : Option Bool
  pub execution_time_limit : Option ℤ
  pub multiple_instances : Option TaskMultipleInstances
  pub allow_hard_terminate : Option Bool
  pub allow_demand_start : Option Bool

abbrev pub second : ℕ
second = 1000000

abbrev pub max_execution_time_limit : ℕ
max_execution_time_limit = 2147483647 * second

-- `_whole_non_negative_seconds`
unfoldable pub whole_non_negative_seconds : Option ℤ → Result SettingsError (Option ℤ)
whole_non_negative_seconds none = ok none
whole_non_negative_seconds (some (negsuc n)) = err negative_time_limit
whole_non_negative_seconds (some (pos n)) =
    if not (n % second == 0)
    then err fractional_time_limit
    else if ltb max_execution_time_limit n
    then err time_limit_too_long
    else ok (some (pos n))

pub data TriggerError : Type 0 where
  negative_delay : TriggerError
  days_out_of_range : ℤ → TriggerError
  bad_user : IdentityError → TriggerError

-- The four triggers; `Moment` is `AwareDatetime`.
pub data TaskTrigger (Moment : Type 0) : Type 0 where
  once : Moment → TaskTrigger Moment
  daily : Moment → ℤ → TaskTrigger Moment
  boot : ℤ → TaskTrigger Moment
  logon : Option Text → TaskTrigger Moment

-- `Field(default=1, ge=1, le=365)`
unfoldable pub every_days_in_range : ℤ → Bool
every_days_in_range (negsuc n) = leb 1 0
every_days_in_range (pos n) = leb 1 n && leb n 365

abbrev pub logon_of :
    {Moment : Type 0}
    → Result IdentityError (Option Text)
    → Result TriggerError (TaskTrigger Moment)
logon_of (ok user_id) = ok (logon user_id)
logon_of (err e) = err (bad_user e)

-- The constructors, with their validators.
unfoldable pub daily_trigger :
    {Moment : Type 0} → Moment → ℤ → Result TriggerError (TaskTrigger Moment)
daily_trigger at every_days =
    if every_days_in_range every_days
    then ok (daily at every_days)
    else err (days_out_of_range every_days)

unfoldable pub boot_trigger : {Moment : Type 0} → ℤ → Result TriggerError (TaskTrigger Moment)
boot_trigger (negsuc n) = err negative_delay
boot_trigger (pos n) = ok (boot (pos n))

unfoldable pub logon_trigger : {Moment : Type 0} → Given → Result TriggerError (TaskTrigger Moment)
logon_trigger given = logon_of (identity given)

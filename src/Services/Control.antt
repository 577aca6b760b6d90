-- ===== src/Services/Control.antt =====
-- Control of services: `ControlStep`, `next_control_step`, the waits, `_drive`, `_query_one` and
-- `NativeServiceController` of src/pwshpy/adapters/native/service_control.py.
pub mod Rounds
pub mod Ends
pub mod Protocol
pub mod Handles
mod Tests
use pwshpy.Base.{
  ℕ, zero, suc, ◌+◌, ◌/◌, ◌%◌, Bool, true, false, ◌&&◌, ◌||◌, not, List, [], ◌∷◌, Option, none,
  some, ◌==◌, leb, if◌then◌else◌, Result, ok, err,
}
use pwshpy.Text.{Text, codes, starts_with}
use pwshpy.Enums.ServiceState.{ServiceState}
use pwshpy.Enums.ServiceKind.{ServiceKind}
use pwshpy.Enums.ServiceStartType.{ServiceStartType}
use pwshpy.Marshal.Services.{
  to_service_state, to_service_kind, to_service_start_type, from_service_start_type,
}
use pwshpy.Services.Monad.{
  ControlError, target_not_reached, still_pending, native, Outcome, Call, wrapped, return, finally,
  ◌>>=◌, ◌>>◌,
}

-- `_POLL_INTERVAL`, in milliseconds
abbrev pub poll_interval : ℕ
poll_interval = 250

abbrev pub service_stopped : ℕ
service_stopped = 1

abbrev pub service_start_pending : ℕ
service_start_pending = 2

abbrev pub service_stop_pending : ℕ
service_stop_pending = 3

abbrev pub service_running : ℕ
service_running = 4

-- `state in _PENDING_STATES`
unfoldable pub is_pending : ℕ → Bool
is_pending state =
    state == service_start_pending || state == service_stop_pending || state == 5 || state == 6

pub data ControlStep : Type 0 where
  done await_target settle_first issue : ControlStep

unfoldable pub next_control_step : ℕ → ℕ → ℕ → ControlStep
next_control_step state target target_pending =
    if state == target
    then done
    else if state == target_pending
    then await_target
    else if is_pending state
    then settle_first
    else issue

-- What `QueryServiceStatusEx` and `QueryServiceConfig` return, as far as it is read.
pub record Status : Type 0 where
  pub controls_accepted : ℕ
  pub current_state : ℕ
  pub service_type : ℕ
  pub process_id : ℕ

pub record Config : Type 0 where
  pub start_type : ℕ
  pub dependencies : List Text
  pub display_name : Text

-- The `win32service` module and the clock. A handle is a number, and so is an access mask.
pub record Manager (World Native : Type 0) : Type 0 where
  pub open_manager : World → Result Native ℕ × World
  pub open_service : ℕ → Text → ℕ → World → Result Native ℕ × World
  pub query_status : ℕ → World → Result Native ℕ × World
  pub query_status_ex : ℕ → World → Result Native Status × World
  pub query_config : ℕ → World → Result Native Config × World
  pub start_service : ℕ → World → Result Native (Unit {0}) × World
  pub control_stop : ℕ → World → Result Native (Unit {0}) × World
  pub change_start_type : ℕ → ℕ → World → Result Native (Unit {0}) × World
  -- The model's closing does not fail.
  pub close_handle : ℕ → World → World
  pub monotonic : World → ℕ
  pub sleep : ℕ → World → World
  pub query_access : ℕ
  pub start_access : ℕ
  pub stop_access : ℕ
  pub change_config_access : ℕ

pub record ServiceInfo : Type 0 where
  pub name : Text
  pub display_name : Text
  pub status : ServiceState
  pub service_type : ServiceKind
  pub pid : Option ℕ
  pub can_stop : Bool
  pub can_pause_continue : Bool
  pub start_type : ServiceStartType
  pub required_services : List Text

-- The names that do not start with a plus sign.
unfoldable pub services_only : List Text → List Text
unfolding starts_with
services_only [] = []
services_only (dep ∷ deps) =
    let rest = services_only deps in if starts_with (codes "+") dep then rest else dep ∷ rest

-- `SERVICE_ACCEPT_STOP` is 1 and `SERVICE_ACCEPT_PAUSE_CONTINUE` is 2.
unfoldable pub service_info : Text → Status → Config → ServiceInfo
service_info name status config = record {
  name = name;
  display_name = config.display_name;
  status = to_service_state status.current_state;
  service_type = to_service_kind status.service_type;
  pid = if status.process_id == 0 then none else some status.process_id;
  can_stop = status.controls_accepted % 2 == 1;
  can_pause_continue = status.controls_accepted / 2 % 2 == 1;
  start_type = to_service_start_type config.start_type;
  required_services = services_only config.dependencies;
}

-- One verb's transition.
pub record Control (World Native : Type 0) : Type 0 where
  pub send : World → Result Native (Unit {0}) × World
  pub target : ℕ
  pub target_pending : ℕ

module _ {World Native : Type 0} (scm : Manager World Native) where
  abbrev pub current_state : ℕ → Call World Native ℕ
  current_state handle w = wrapped (scm.query_status handle w)

  -- `_Deadline.passed`, of the end of the budget
  abbrev pub passed : ℕ → World → Bool
  passed at w = leb at (scm.monotonic w)

  -- One round of `_wait_for_state`: what the query gave, and the rest of the loop behind the sleep.
  unfoldable pub target_round :
      ℕ
      → ℕ
      → Result Native ℕ
      → World
      → Outcome World Native (Unit {0})
      → Outcome World Native (Unit {0})
  target_round target at (err e) w rest = some (err (native e), w)
  target_round target at (ok state) w rest =
      if state == target
      then some (ok tt, w)
      else if passed at w
      then some (err (target_not_reached target), w)
      else rest

  unfoldable pub wait_for_state : ℕ → ℕ → ℕ → ℕ → Call World Native (Unit {0})
  wait_for_state zero handle target at w = none
  wait_for_state (suc fuel) handle target at w =
      let (r, w1) = scm.query_status handle w in
      target_round target at r w1
        (wait_for_state fuel handle target at (scm.sleep poll_interval w1))

  -- One round of `_wait_until_settled`.
  unfoldable pub settled_round :
      ℕ → Result Native ℕ → World → Outcome World Native ℕ → Outcome World Native ℕ
  settled_round at (err e) w rest = some (err (native e), w)
  settled_round at (ok state) w rest =
      if not (is_pending state)
      then some (ok state, w)
      else if passed at w
      then some (err (still_pending state), w)
      else rest

  unfoldable pub wait_until_settled : ℕ → ℕ → ℕ → Call World Native ℕ
  wait_until_settled zero handle at w = none
  wait_until_settled (suc fuel) handle at w =
      let (r, w1) = scm.query_status handle w in
      settled_round at r w1 (wait_until_settled fuel handle at (scm.sleep poll_interval w1))

  module _ (fuel handle : ℕ) (control : Control World Native) (at : ℕ) (wait : Bool) where
    abbrev pub step_in : ℕ → ControlStep
    step_in state = next_control_step state control.target control.target_pending

    -- `if step is ControlStep.SETTLE_FIRST`
    abbrev pub settle : ControlStep → Call World Native ControlStep
    settle settle_first = wait_until_settled fuel handle at >>= λ state. return (step_in state)
    settle done = return done
    settle await_target = return await_target
    settle issue = return issue

    -- `if step is ControlStep.ISSUE`
    abbrev pub send_control : ControlStep → Call World Native (Unit {0})
    send_control issue = λ w. wrapped (control.send w)
    send_control done = return tt
    send_control await_target = return tt
    send_control settle_first = return tt

    -- `if wait and step is not ControlStep.DONE`
    abbrev pub wait_if : Bool → ControlStep → Call World Native (Unit {0})
    wait_if false step = return tt
    wait_if true done = return tt
    wait_if true await_target = wait_for_state fuel handle control.target at
    wait_if true settle_first = wait_for_state fuel handle control.target at
    wait_if true issue = wait_for_state fuel handle control.target at

    unfoldable pub drive : Call World Native (Unit {0})
    drive = current_state handle >>= λ state.
        settle (step_in state) >>= λ step. (send_control step >> wait_if wait step)

  unfoldable pub query_one : ℕ → Text → Call World Native ServiceInfo
  query_one manager name =
      (λ w. wrapped (scm.open_service manager name scm.query_access w)) >>= λ handle.
      finally
        ((λ w. wrapped (scm.query_status_ex handle w)) >>= λ status.
          (λ w. wrapped (scm.query_config handle w)) >>= λ config.
          return (service_info name status config))
        (scm.close_handle handle)

  -- The frame of a verb: open the manager, open the service, act, close it, and query it again.
  unfoldable pub with_service :
      Text → ℕ → (ℕ → Call World Native (Unit {0})) → Call World Native ServiceInfo
  with_service name access act = (λ w. wrapped (scm.open_manager w)) >>= λ manager.
      finally
        ((λ w. wrapped (scm.open_service manager name access w)) >>= λ handle.
          (finally (act handle) (scm.close_handle handle) >> query_one manager name))
        (scm.close_handle manager)

  abbrev pub start_control : ℕ → Control World Native
  start_control handle = record {
    send = scm.start_service handle;
    target = service_running;
    target_pending = service_start_pending;
  }

  abbrev pub stop_control : ℕ → Control World Native
  stop_control handle = record {
    send = scm.control_stop handle;
    target = service_stopped;
    target_pending = service_stop_pending;
  }

  -- `_Deadline.after` is read when the verb starts to drive the service.
  abbrev pub drive_within :
      ℕ → ℕ → Bool → (ℕ → Control World Native) → ℕ → Call World Native (Unit {0})
  drive_within fuel timeout wait control handle w =
      drive fuel handle (control handle) (scm.monotonic w + timeout) wait w

  unfoldable pub start : ℕ → Text → ℕ → Call World Native ServiceInfo
  start fuel name timeout =
      with_service name scm.start_access (drive_within fuel timeout true start_control)

  unfoldable pub stop : ℕ → Text → ℕ → Bool → Call World Native ServiceInfo
  stop fuel name timeout wait =
      with_service name scm.stop_access (drive_within fuel timeout wait stop_control)

  unfoldable pub restart : ℕ → Text → ℕ → Call World Native ServiceInfo
  restart fuel name timeout = stop fuel name timeout true >> start fuel name timeout

  -- `from_service_start_type` knows every member, so a `KeyError` does not occur.
  abbrev pub change_to : ℕ → Option ℕ → Call World Native (Unit {0})
  change_to handle none = return tt
  change_to handle (some id) = λ w. wrapped (scm.change_start_type handle id w)

  unfoldable pub set_startup : Text → ServiceStartType → Call World Native ServiceInfo
  set_startup name start_type =
      with_service name scm.change_config_access
        (λ handle. change_to handle (from_service_start_type start_type))

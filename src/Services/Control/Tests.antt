-- ===== src/Services/Control/Tests.antt =====
-- Verbs on a manager of one service, whose pending transitions end after a number of seconds.
use pwshpy.Base.{
  ℕ, suc, ◌+◌, ◌≡◌, List, length, refl, true, false, [], ◌∷◌, some, Result, ok, err, arith, ◌==◌,
  leb, if◌then◌else◌,
}
use pwshpy.Text.{codes}
use pwshpy.Enums.ServiceStartType.{automatic}
use pwshpy.Services.Monad.{target_not_reached, wrapped, go_on}
use pwshpy.Services.Control.{
  Manager, Status, Config, is_pending, service_running, target_round, settled_round, wait_for_state,
  wait_until_settled, drive, start_control, start, stop, restart, set_startup, next_control_step,
}
use pwshpy.Services.Control.Ends.{KeepsTime}
use pwshpy.Services.Control.Ends.Verbs.{HasOutcome, verbs-HasOutcome}
use pwshpy.Services.Control.Handles.{TracksHandles, Leaves, without_closed}
use pwshpy.Services.Control.Handles.Verbs.{verbs-Leaves}
use pwshpy.Services.Control.Protocol.{Drives}
use pwshpy.Services.Control.Protocol.Driven.{drive-Drives}

-- The service's state, the time at which a pending state ends, the clock and the open handles.
record World : Type 0 where
  state : ℕ
  ends : ℕ
  clock : ℕ
  handles : List ℕ

-- The state that is read: a pending state that has ended is the settled one behind it.
abbrev state_now : World → ℕ
state_now w =
    if leb w.ends w.clock
    then (if w.state == 2 then 4 else if w.state == 3 then 1 else w.state)
    else w.state

abbrev opened : World → Result ℕ ℕ × World
opened w =
    let fresh = suc (length w.handles) in (ok fresh, record w { handles = fresh ∷ w.handles })

abbrev pending_for : ℕ → World → Result ℕ (Unit {0}) × World
pending_for state w = (ok tt, record w { state = state; ends = w.clock + 600 })

abbrev status_of : World → Status
status_of w = record {
  controls_accepted = 1;
  current_state = state_now w;
  service_type = 0x10;
  process_id = 9;
}

abbrev config : Config
config = record {
  start_type = 2;
  dependencies = codes "RpcSs" ∷ codes "+Group" ∷ [];
  display_name = codes "Spooler";
}

abbrev simulated : Manager World ℕ
simulated = record {
  open_manager = opened;
  open_service = λ manager name access w. opened w;
  query_status = λ h w. (ok (state_now w), w);
  query_status_ex = λ h w. (ok (status_of w), w);
  query_config = λ h w. (ok config, w);
  start_service = λ h w. pending_for 2 w;
  control_stop = λ h w. pending_for 3 w;
  change_start_type = λ h n w. (ok tt, w);
  close_handle = λ h w. record w { handles = without_closed h w.handles };
  monotonic = λ w. w.clock;
  sleep = λ n w. record w { clock = w.clock + n };
  query_access = 5;
  start_access = 20;
  stop_access = 36;
  change_config_access = 2;
}

abbrev simulated_time : KeepsTime simulated
simulated_time = record {
  query_status_time = λ h w. omega arith;
  start_service_time = λ h w. omega arith;
  control_stop_time = λ h w. omega arith;
  sleep_time = λ n w. omega arith;
}

abbrev simulated_handles : TracksHandles simulated
simulated_handles = record {
  held = λ w. w.handles;
  open_manager_open = λ w. refl;
  open_service_open = λ m n a w. refl;
  close_handle_open = λ h w o. refl;
  query_status_open = λ h w. refl;
  query_status_ex_open = λ h w. refl;
  query_config_open = λ h w. refl;
  start_service_open = λ h w. refl;
  control_stop_open = λ h w. refl;
  change_start_type_open = λ h n w. refl;
  sleep_open = λ n w. refl;
}

abbrev stopped_world : World
stopped_world = record { state = 1; ends = 0; clock = 0; handles = [] }

abbrev stopping_world : World
stopping_world = record { state = 3; ends = 400; clock = 0; handles = 7 ∷ [] }

-- The stop that is under way is waited out, and the service started then: 400 ms and 600 ms, in
-- steps of 250 ms.
driven :
    drive simulated 20 7 (start_control simulated 7) 5000 true stopping_world
    ≡ some (ok tt, record { state = 2; ends = 1100; clock = 1250; handles = 7 ∷ [] })
unfolding drive wait_for_state wait_until_settled target_round settled_round wrapped go_on
    is_pending next_control_step
driven = refl

too_slow :
    drive simulated 20 7 (start_control simulated 7) 300 true stopped_world
    ≡ some (err (target_not_reached 4), record { state = 2; ends = 600; clock = 500; handles = [] })
unfolding drive wait_for_state wait_until_settled target_round settled_round wrapped go_on
    is_pending next_control_step
too_slow = refl

running_not_pending : is_pending service_running ≡ false
unfolding is_pending
running_not_pending = refl

start_pending_pending : is_pending 2 ≡ true
unfolding is_pending
start_pending_pending = refl

verbs-HasOutcome_example :
    HasOutcome simulated simulated_time (start simulated 121 (codes "Spooler") 30000 stopped_world)
    × HasOutcome simulated simulated_time
        (stop simulated 121 (codes "Spooler") 30000 true stopped_world)
    × HasOutcome simulated simulated_time
        (restart simulated 121 (codes "Spooler") 30000 stopped_world)
verbs-HasOutcome_example =
    verbs-HasOutcome simulated simulated_time 120 30000 (omega arith) true (codes "Spooler")
      stopped_world

verbs-Leaves_example :
    Leaves simulated simulated_handles []
      (start simulated 121 (codes "Spooler") 30000 stopped_world)
    × Leaves simulated simulated_handles []
        (stop simulated 121 (codes "Spooler") 30000 false stopped_world)
    × Leaves simulated simulated_handles []
        (restart simulated 121 (codes "Spooler") 30000 stopped_world)
    × Leaves simulated simulated_handles []
        (set_startup simulated (codes "Spooler") automatic stopped_world)
verbs-Leaves_example =
    verbs-Leaves simulated simulated_handles 121 30000 false automatic (codes "Spooler")
      stopped_world

drive-Drives_example :
    Drives simulated 7
      (start_control simulated 7)
      stopping_world
      (record { state = 2; ends = 1100; clock = 1250; handles = 7 ∷ [] })
drive-Drives_example =
    drive-Drives simulated 7 20 (start_control simulated 7) 5000 stopping_world
      (record { state = 2; ends = 1100; clock = 1250; handles = 7 ∷ [] }) running_not_pending
      start_pending_pending driven

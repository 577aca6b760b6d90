-- ===== src/Services/Control/Ends/Verbs.antt =====
-- Each verb comes to an end.
use pwshpy.Base.{ℕ, suc, ◌+◌, ◌*◌, ◌≤◌, ◌≡◌, refl, Bool, true, some, none, Result, arith}
use pwshpy.Text.{Text}
use pwshpy.Services.Monad.{ControlError, Outcome, Call, wrapped}
use pwshpy.Services.Control.{
  Manager, poll_interval, service_info, query_one, with_service, start_control, stop_control, start,
  stop, restart,
}
use pwshpy.Services.Control.Ends.{
  KeepsTime, EndsAfter, EndsAfter-return, EndsAfter-wrapped, EndsAfter-go_on, EndsAfter-finally_do,
  EndsAfter-drive,
}

module _ {World Native : Type 0} (scm : Manager World Native) (laws : KeepsTime scm) where
  EndsAfter-earlier :
      {A : Type 0} (t : ℕ) (o : Outcome World Native A)
      → EndsAfter scm laws t o
      → EndsAfter scm laws 0 o
  unfolding EndsAfter
  EndsAfter-earlier t none h = h
  EndsAfter-earlier t (some (r, w)) h = omega arith

  anytime : {A : Type 0} (r : Result Native A × World) → EndsAfter scm laws 0 (wrapped r)
  anytime r = EndsAfter-wrapped scm laws 0 r (omega arith)

  EndsAfter-query_one :
      (manager : ℕ) (name : Text) (w : World) → EndsAfter scm laws 0 (query_one scm manager name w)
  unfolding query_one
  EndsAfter-query_one manager name w =
      EndsAfter-go_on scm laws 0 _ _ (anytime (scm.open_service manager name scm.query_access w))
        (λ handle w1 h1. EndsAfter-finally_do scm laws _ (scm.close_handle handle) (
          EndsAfter-go_on scm laws 0 _ _ (anytime (scm.query_status_ex handle w1)) (λ status w2 h2.
            EndsAfter-go_on scm laws 0 _ _ (anytime (scm.query_config handle w2)) (λ config w3 h3.
              EndsAfter-return scm laws 0 (service_info name status config) w3 h3))))

  EndsAfter-with_service :
      (name : Text) (access : ℕ) (act : ℕ → Call World Native (Unit {0}))
      → ((h : ℕ) (w : World) → EndsAfter scm laws 0 (act h w))
      → (w : World) → EndsAfter scm laws 0 (with_service scm name access act w)
  unfolding with_service
  EndsAfter-with_service name access act acts w =
      EndsAfter-go_on scm laws 0 _ _ (anytime (scm.open_manager w)) (λ manager w1 h1.
        EndsAfter-finally_do scm laws _ (scm.close_handle manager) (
          EndsAfter-go_on scm laws 0 _ _ (anytime (scm.open_service manager name access w1))
            (λ handle w2 h2.
              EndsAfter-go_on scm laws 0 _ _
                (EndsAfter-finally_do scm laws _ (scm.close_handle handle) (acts handle w2))
                (λ u w3 h3. EndsAfter-query_one manager name w3))))

  abbrev pub HasOutcome : {A : Type 0} → Outcome World Native A → Type 0
  HasOutcome {A} o = (r : Result (ControlError Native) A) × (w : World) × (o ≡ some (r, w))

  EndsAfter→HasOutcome :
      {A : Type 0} (o : Outcome World Native A) → EndsAfter scm laws 0 o → HasOutcome o
  unfolding EndsAfter
  EndsAfter→HasOutcome none h = absurd (omega (arith, h))
  EndsAfter→HasOutcome (some (r, w)) h = (r, w, refl)

  module _ (fuel timeout : ℕ) (enough : timeout ≤ fuel * poll_interval) where
    EndsAfter-start :
        (name : Text) (w : World) → EndsAfter scm laws 0 (start scm (suc fuel) name timeout w)
    unfolding start
    EndsAfter-start name w =
        EndsAfter-with_service name scm.start_access _
          (λ h w1. EndsAfter-earlier (scm.monotonic w1) _ (
            EndsAfter-drive scm laws fuel h (start_control scm h) (scm.monotonic w1 + timeout) true
              (scm.monotonic w1) (omega arith) (laws.start_service_time h) w1 (omega arith)))
          w

    EndsAfter-stop :
        (wait : Bool) (name : Text) (w : World)
        → EndsAfter scm laws 0 (stop scm (suc fuel) name timeout wait w)
    unfolding stop
    EndsAfter-stop wait name w =
        EndsAfter-with_service name scm.stop_access _
          (λ h w1. EndsAfter-earlier (scm.monotonic w1) _ (
            EndsAfter-drive scm laws fuel h (stop_control scm h) (scm.monotonic w1 + timeout) wait
              (scm.monotonic w1) (omega arith) (laws.control_stop_time h) w1 (omega arith)))
          w

    EndsAfter-restart :
        (name : Text) (w : World) → EndsAfter scm laws 0 (restart scm (suc fuel) name timeout w)
    unfolding restart
    EndsAfter-restart name w =
        EndsAfter-go_on scm laws 0 _ _ (EndsAfter-stop true name w)
          (λ info w1 h1. EndsAfter-start name w1)

    -- One round more than the timeout has poll intervals is enough: a start, a stop and a restart
    -- then return or raise, whatever the service does, if the clock never goes back and a sleep
    -- lasts as long as it was asked to.
    pub verbs-HasOutcome :
        (wait : Bool) (name : Text) (w : World)
        → HasOutcome (start scm (suc fuel) name timeout w)
          × HasOutcome (stop scm (suc fuel) name timeout wait w)
          × HasOutcome (restart scm (suc fuel) name timeout w)
    verbs-HasOutcome wait name w = (
      EndsAfter→HasOutcome _ (EndsAfter-start name w),
      EndsAfter→HasOutcome _ (EndsAfter-stop wait name w),
      EndsAfter→HasOutcome _ (EndsAfter-restart name w),
    )

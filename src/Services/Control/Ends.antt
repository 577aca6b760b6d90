-- ===== src/Services/Control/Ends.antt =====
-- Waiting ends: each verb comes to an end on a clock that goes on while it sleeps.
pub mod Verbs
use pwshpy.Base.{
  ℕ, zero, suc, ◌+◌, ◌*◌, ◌≤◌, ◌≡◌, refl, ap, ◌∙◌, Bool, true, false, some, none, Result, ok, err,
  arith, Bool-cases, inl, inr, ◌==◌, leb, leb→le, if◌then◌else◌, not,
}
use pwshpy.Text.{Text}
use pwshpy.Services.Monad.{
  ControlError, Outcome, Call, wrapped, return, go_on, finally_do, ◌>>=◌, ◌>>◌,
}
use pwshpy.Services.Control.{
  Manager, Control, ControlStep, done, await_target, settle_first, issue, ServiceInfo, service_info,
  is_pending, passed, poll_interval, target_round, settled_round, wait_for_state,
  wait_until_settled, settle, send_control, wait_if, step_in, drive, drive_within, query_one,
  with_service, start_control, stop_control, start, stop, restart,
}
use pwshpy.Services.Control.Rounds.{wait_for_state_step, wait_until_settled_step}

-- The clock does not go back, and a sleep lasts as long as it was asked to.
pub record KeepsTime {World Native : Type 0} (scm : Manager World Native) : Type 0 where
  pub query_status_time :
      (h : ℕ) (w : World) → scm.monotonic w ≤ scm.monotonic (scm.query_status h w).1
  pub start_service_time :
      (h : ℕ) (w : World) → scm.monotonic w ≤ scm.monotonic (scm.start_service h w).1
  pub control_stop_time :
      (h : ℕ) (w : World) → scm.monotonic w ≤ scm.monotonic (scm.control_stop h w).1
  pub sleep_time : (n : ℕ) (w : World) → scm.monotonic w + n ≤ scm.monotonic (scm.sleep n w)

module _ {World Native : Type 0} (scm : Manager World Native) (laws : KeepsTime scm) where
  abbrev now : World → ℕ
  now = scm.monotonic

  -- There is an outcome, at a time that is not before `t`.
  unfoldable pub EndsAfter : {A : Type 0} → ℕ → Outcome World Native A → Type 0
  EndsAfter t none = 1 ≤ 0
  EndsAfter t (some (r, w)) = t ≤ scm.monotonic w

  pub EndsAfter-return :
      {A : Type 0} (t : ℕ) (a : A) (w : World) → t ≤ now w → EndsAfter t (return a w)
  unfolding EndsAfter
  EndsAfter-return t a w h = h

  pub EndsAfter-wrapped :
      {A : Type 0} (t : ℕ) (r : Result Native A × World) → t ≤ now r.1 → EndsAfter t (wrapped r)
  unfolding EndsAfter wrapped
  EndsAfter-wrapped t (ok a, w) h = h
  EndsAfter-wrapped t (err e, w) h = h

  pub EndsAfter-go_on :
      {A B : Type 0} (t : ℕ) (o : Outcome World Native A) (rest : A → Call World Native B)
      → EndsAfter t o
      → ((a : A) (w : World) → t ≤ now w → EndsAfter t (rest a w))
      → EndsAfter t (go_on o rest)
  unfolding EndsAfter go_on
  EndsAfter-go_on t none rest h k = h
  EndsAfter-go_on t (some (err e, w)) rest h k = h
  EndsAfter-go_on t (some (ok a, w)) rest h k = k a w h

  pub EndsAfter-finally_do :
      {A : Type 0} (o : Outcome World Native A) (close : World → World)
      → EndsAfter 0 o
      → EndsAfter 0 (finally_do o close)
  unfolding EndsAfter finally_do
  EndsAfter-finally_do none close h = h
  EndsAfter-finally_do (some (r, w)) close h = omega arith

  EndsAfter-target_round :
      (t target at : ℕ) (r : Result Native ℕ) (w : World) (rest : Outcome World Native (Unit {0}))
      → t ≤ now w
      → (passed scm at w ≡ false → EndsAfter t rest)
      → EndsAfter t (target_round scm target at r w rest)
  unfolding EndsAfter target_round
  EndsAfter-target_round t target at (err e) w rest h k = h
  EndsAfter-target_round t target at (ok state) w rest h k = elim (Bool-cases (state == target)) [
    | inl there ↦ rw there h
    | inr away ↦ elim (Bool-cases (passed scm at w)) [
      | inl late ↦ rw (away, late) h
      | inr early ↦ rw (away, early) (k early)
    ]
  ]

  EndsAfter-settled_round :
      (t at : ℕ) (r : Result Native ℕ) (w : World) (rest : Outcome World Native ℕ)
      → t ≤ now w
      → (passed scm at w ≡ false → EndsAfter t rest)
      → EndsAfter t (settled_round scm at r w rest)
  unfolding EndsAfter settled_round
  EndsAfter-settled_round t at (err e) w rest h k = h
  EndsAfter-settled_round t at (ok state) w rest h k = elim (Bool-cases (is_pending state)) [
    | inr settled ↦ rw settled h
    | inl pending ↦ elim (Bool-cases (passed scm at w)) [
      | inl late ↦ rw (pending, late) h
      | inr early ↦ rw (pending, early) (k early)
    ]
  ]

  early-lt : (at : ℕ) (w : World) → passed scm at w ≡ false → now w + 1 ≤ at
  early-lt at w h = ground arith

  -- A round of polling, with the time left for the rounds that come.
  module _ (handle at : ℕ) (w : World) where
    abbrev queried : World
    queried = (scm.query_status handle w).1

    abbrev slept : World
    slept = scm.sleep poll_interval queried

    no_time_left : at ≤ now w + 0 * 250 → passed scm at queried ≡ false → 1 ≤ 0
    no_time_left late early =
        omega (arith, early-lt at queried early, laws.query_status_time handle w)

    one_round_less : (fuel : ℕ) → at ≤ now w + suc fuel * 250 → at ≤ now slept + fuel * 250
    one_round_less fuel late =
        omega (arith, laws.query_status_time handle w, laws.sleep_time poll_interval queried)

    later_still : (t : ℕ) → t ≤ now w → t ≤ now slept
    later_still t h =
        omega (arith, laws.query_status_time handle w, laws.sleep_time poll_interval queried)

    later_queried : (t : ℕ) → t ≤ now w → t ≤ now queried
    later_queried t h = omega (arith, laws.query_status_time handle w)

  EndsAfter-wait_for_state :
      (fuel t handle target at : ℕ) (w : World)
      → t ≤ now w
      → at ≤ now w + fuel * 250
      → EndsAfter t (wait_for_state scm (suc fuel) handle target at w)
  EndsAfter-wait_for_state zero t handle target at w h late = rw (wait_for_state_step scm) (
      EndsAfter-target_round t target at _ _ _ (later_queried handle at w t h)
        (λ early. absurd (omega (arith, no_time_left handle at w late early))))
  EndsAfter-wait_for_state (suc fuel) t handle target at w h late = rw (wait_for_state_step scm) (
      EndsAfter-target_round t target at _ _ _ (later_queried handle at w t h) (λ early.
        EndsAfter-wait_for_state fuel t handle target at (slept handle at w)
          (later_still handle at w t h) (one_round_less handle at w fuel late)))

  EndsAfter-wait_until_settled :
      (fuel t handle at : ℕ) (w : World)
      → t ≤ now w
      → at ≤ now w + fuel * 250
      → EndsAfter t (wait_until_settled scm (suc fuel) handle at w)
  EndsAfter-wait_until_settled zero t handle at w h late = rw (wait_until_settled_step scm) (
      EndsAfter-settled_round t at _ _ _ (later_queried handle at w t h)
        (λ early. absurd (omega (arith, no_time_left handle at w late early))))
  EndsAfter-wait_until_settled (suc fuel) t handle at w h late = rw (wait_until_settled_step scm) (
      EndsAfter-settled_round t at _ _ _ (later_queried handle at w t h) (λ early.
        EndsAfter-wait_until_settled fuel t handle at (slept handle at w)
          (later_still handle at w t h) (one_round_less handle at w fuel late)))

  module _ (fuel handle : ℕ) (control : Control World Native) (at : ℕ) (wait : Bool) (t : ℕ)
      (enough : at ≤ t + fuel * 250) where
    EndsAfter-settle :
        (step : ControlStep) (w : World)
        → t ≤ now w
        → EndsAfter t (settle scm (suc fuel) handle control at wait step w)
    EndsAfter-settle settle_first w h =
        EndsAfter-go_on t _ _ (EndsAfter-wait_until_settled fuel t handle at w h (omega arith))
          (λ state w1 h1.
            EndsAfter-return t (step_in scm (suc fuel) handle control at wait state) w1 h1)
    EndsAfter-settle done w h = EndsAfter-return t done w h
    EndsAfter-settle await_target w h = EndsAfter-return t await_target w h
    EndsAfter-settle issue w h = EndsAfter-return t issue w h

    EndsAfter-send_control :
        ((w : World) → now w ≤ now (control.send w).1)
        → (step : ControlStep) (w : World) → t ≤ now w
        → EndsAfter t (send_control scm (suc fuel) handle control at wait step w)
    EndsAfter-send_control later issue w h =
        EndsAfter-wrapped t (control.send w) (omega (arith, later w))
    EndsAfter-send_control later done w h = EndsAfter-return t tt w h
    EndsAfter-send_control later await_target w h = EndsAfter-return t tt w h
    EndsAfter-send_control later settle_first w h = EndsAfter-return t tt w h

    EndsAfter-wait_if :
        (b : Bool) (step : ControlStep) (w : World)
        → t ≤ now w
        → EndsAfter t (wait_if scm (suc fuel) handle control at wait b step w)
    EndsAfter-wait_if false step w h = EndsAfter-return t tt w h
    EndsAfter-wait_if true done w h = EndsAfter-return t tt w h
    EndsAfter-wait_if true await_target w h =
        EndsAfter-wait_for_state fuel t handle control.target at w h (omega arith)
    EndsAfter-wait_if true settle_first w h =
        EndsAfter-wait_for_state fuel t handle control.target at w h (omega arith)
    EndsAfter-wait_if true issue w h =
        EndsAfter-wait_for_state fuel t handle control.target at w h (omega arith)

    pub EndsAfter-drive :
        ((w : World) → now w ≤ now (control.send w).1)
        → (w : World) → t ≤ now w
        → EndsAfter t (drive scm (suc fuel) handle control at wait w)
    unfolding drive
    EndsAfter-drive later w h =
        EndsAfter-go_on t _ _
          (EndsAfter-wrapped t (scm.query_status handle w)
            (omega (arith, laws.query_status_time handle w)))
          (λ state w1 h1. EndsAfter-go_on t _ _ (EndsAfter-settle _ w1 h1) (λ step w2 h2.
            EndsAfter-go_on t _ _ (EndsAfter-send_control later step w2 h2)
              (λ u w3 h3. EndsAfter-wait_if wait step w3 h3)))

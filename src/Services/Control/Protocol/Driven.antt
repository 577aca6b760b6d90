-- ===== src/Services/Control/Protocol/Driven.antt =====
-- A drive that returns has followed the protocol.
use pwshpy.Base.{
  ℕ, ◌≤◌, ◌≡◌, ◌≢◌, refl, subst, ap, sym, ◌∙◌, true, false, some, ok, arith, Bool-cases, inl, inr,
  ◌⊎◌, ◌==◌, ==_iff,
}
use pwshpy.Services.Monad.{return}
use pwshpy.Services.Control.{
  Manager, Control, ControlStep, done, await_target, settle_first, issue, is_pending,
  next_control_step, settle, send_control, wait_if, step_in, drive,
}
use pwshpy.Services.Control.Protocol.{
  wrapped-eq_ok, go_on-eq_ok, Reads, Arrives, wait_for_state-Arrives, wait_until_settled-Settles,
  Decides, at_once, when_settled, Drives, already_there, on_its_way, sent,
}

module _ {World Native : Type 0} (scm : Manager World Native) (handle : ℕ) where
  step-cases :
      (state target target_pending : ℕ)
      → ((state ≡ target) × (next_control_step state target target_pending ≡ done))
        ⊎ (((state ≡ target_pending)
              × (next_control_step state target target_pending ≡ await_target))
            ⊎ (((is_pending state ≡ true)
                  × (next_control_step state target target_pending ≡ settle_first))
                ⊎ ((state ≢ target)
                    × (is_pending state ≡ false)
                    × (next_control_step state target target_pending ≡ issue))))
  unfolding next_control_step
  step-cases state target target_pending = elim (Bool-cases (state == target)) [
    | inl there ↦ inl ((==_iff state target).0 there, rw there refl)
    | inr away ↦ elim (Bool-cases (state == target_pending)) [
      | inl coming ↦ inr (inl ((==_iff state target_pending).0 coming, rw (away, coming) refl))
      | inr not_coming ↦ elim (Bool-cases (is_pending state)) [
        | inl pending ↦ inr (inr (inl (pending, rw (away, not_coming, pending) refl)))
        | inr settled ↦
            inr (inr (inr ((λ e. ground arith), settled, rw (away, not_coming, settled) refl)))
      ]
    ]
  ]

  module _ (fuel : ℕ) (control : Control World Native) (at : ℕ) where
    -- What is known behind the decision.
    abbrev Decided : World → ControlStep → World → Type 0
    Decided w done w1 = Decides scm handle w control.target w1
    Decided w await_target w1 = Reads scm handle w control.target_pending w1
    Decided w settle_first w1 = 1 ≤ 0
    Decided w issue w1 = (s : ℕ) × Decides scm handle w s w1 × (s ≢ control.target)

    -- What the verb does then.
    abbrev Finishes : ControlStep → World → World → Type 0
    Finishes done w w' = w ≡ w'
    Finishes await_target w w' = Arrives scm handle control.target w w'
    Finishes settle_first w w' = Arrives scm handle control.target w w'
    Finishes issue w w' =
        (v : World) × (control.send w ≡ (ok tt, v)) × Arrives scm handle control.target v w'

    finishes :
        (step : ControlStep) (w : World) {v w' : World}
        → send_control scm fuel handle control at true step w ≡ some (ok tt, v)
        → wait_if scm fuel handle control at true true step v ≡ some (ok tt, w')
        → Finishes step w w'
    finishes done w e h = cc
    finishes await_target w {v} {w'} e h =
        let same : v ≡ w = cc in
        subst (λ u. Arrives scm handle control.target u w') same
          (wait_for_state-Arrives scm handle fuel control.target at v h)
    finishes settle_first w {v} {w'} e h =
        let same : v ≡ w = cc in
        subst (λ u. Arrives scm handle control.target u w') same
          (wait_for_state-Arrives scm handle fuel control.target at v h)
    finishes issue w {v} e h = (
      v,
      wrapped-eq_ok (control.send w) e,
      wait_for_state-Arrives scm handle fuel control.target at v h,
    )

    Decided-Drives :
        (step : ControlStep) (w w1 w' : World)
        → Decided w step w1
        → Finishes step w1 w'
        → Drives scm handle control w w'
    Decided-Drives done w w1 w' d f =
        already_there (subst (λ u. Decides scm handle w control.target u) f d)
    Decided-Drives await_target w w1 w' d f = on_its_way d f
    Decided-Drives settle_first w w1 w' d f = absurd (omega (arith, d))
    Decided-Drives issue w w1 w' (s, d, ne) (v, e, f) = sent s d ne e f

    -- Deciding again in a state that is not pending.
    decide_settled :
        (s : ℕ) (step : ControlStep) (w w1 : World)
        → is_pending control.target_pending ≡ true
        → is_pending s ≡ false
        → Decides scm handle w s w1
        → step_in scm fuel handle control at true s ≡ step
        → Decided w step w1
    decide_settled s step w w1 pending settled d e =
        elim (step-cases s control.target control.target_pending) [
          | inl (there, k) ↦
              subst (λ x. Decided w x w1) (sym k ∙ e)
                (subst (λ t. Decides scm handle w t w1) there d)
          | inr (inl (coming, k)) ↦
              let clash : is_pending s ≡ true = ap is_pending coming ∙ pending in
              absurd (cc (clash, settled))
          | inr (inr (inl (still, k))) ↦ absurd (cc (still, settled))
          | inr (inr (inr (away, still, k))) ↦ subst (λ x. Decided w x w1) (sym k ∙ e) (s, d, away)
        ]

    Decided-step :
        (step : ControlStep) (w w1 w2 : World)
        → (known : ControlStep) → Decided w known w1
        → return {Native = Native} known w1 ≡ some (ok step, w2)
        → Decided w step w2
    Decided-step step w w1 w2 known d e =
        let same : known ≡ step = cc in
        let there : w1 ≡ w2 = cc in
        subst (λ x. Decided w x w2) same (subst (λ v. Decided w known v) there d)

    settle-Decided :
        (state : ℕ) (step : ControlStep) (w w1 w2 : World)
        → is_pending control.target ≡ false
        → is_pending control.target_pending ≡ true
        → Reads scm handle w state w1
        → settle scm fuel handle control at true (step_in scm fuel handle control at true state) w1
          ≡ some (ok step, w2)
        → Decided w step w2
    settle-Decided state step w w1 w2 target pending reads e =
        elim (step-cases state control.target control.target_pending) [
          | inl (there, k) ↦
              Decided-step step w w1 w2 done
                (at_once (subst (λ t. Reads scm handle w t w1) there reads) target) (rw k at e)
          | inr (inl (coming, k)) ↦
              Decided-step step w w1 w2 await_target
                (subst (λ t. Reads scm handle w t w1) coming reads) (rw k at e)
          | inr (inr (inl (still, k))) ↦
              let (s, v, settled_run, again) = go_on-eq_ok _ _ (rw k at e) in
              let (settled, run) = wait_until_settled-Settles scm handle fuel at w1 settled_run in
              let same : step_in scm fuel handle control at true s ≡ step = cc in
              let there : v ≡ w2 = cc in
              subst (λ u. Decided w step u) there
                (decide_settled s step w v pending settled (when_settled reads still (settled, run))
                  same)
          | inr (inr (inr (away, still, k))) ↦
              Decided-step step w w1 w2 issue (state, at_once reads still, away) (rw k at e)
        ]

    -- A drive that waits and returns has followed the protocol: it came to the target, and it sent
    -- the control exactly if it read a settled state that is not the target, and then once. The
    -- target is not a pending state, and the state on the way to it is one.
    pub drive-Drives :
        (w w' : World)
        → is_pending control.target ≡ false
        → is_pending control.target_pending ≡ true
        → drive scm fuel handle control at true w ≡ some (ok tt, w')
        → Drives scm handle control w w'
    unfolding drive
    drive-Drives w w' target pending h =
        let (state, w1, e1, h1) = go_on-eq_ok _ _ h in
        let (step, w2, e2, h2) = go_on-eq_ok _ _ h1 in
        let (u, w3, e3, h3) = go_on-eq_ok _ _ h2 in
        Decided-Drives step w w2 w'
          (settle-Decided state step w w1 w2 target pending
            (wrapped-eq_ok (scm.query_status handle w) e1) e2)
          (finishes step w2 e3 h3)

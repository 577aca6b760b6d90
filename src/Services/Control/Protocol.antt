-- ===== src/Services/Control/Protocol.antt =====
-- What a verb does to a service, from the first query to the last.
pub mod Driven
use pwshpy.Base.{
  ℕ, zero, suc, ◌≡◌, ◌≢◌, refl, subst, ◌≤◌, ap, ap₂, sym, ◌∙◌, Bool, true, false, some, none,
  Result, ok, err, arith, Bool-cases, inl, inr, ◌⊎◌, ◌==◌, ==_iff, ==_refl, leb, if◌then◌else◌, not,
}
use pwshpy.Services.Monad.{Outcome, Call, wrapped, return, go_on, ◌>>=◌, ◌>>◌}
use pwshpy.Services.Control.{
  Manager, Control, ControlStep, done, await_target, settle_first, issue, is_pending, passed,
  poll_interval, next_control_step, target_round, settled_round, wait_for_state, wait_until_settled,
  settle, send_control, wait_if, step_in, drive,
}
use pwshpy.Services.Control.Rounds.{
  wait_for_state-zero, wait_until_settled-zero, wait_for_state_step, wait_until_settled_step,
}

module _ {World Native : Type 0} where
  pub wrapped-eq_ok :
      {A : Type 0} (r : Result Native A × World) {a : A} {w : World}
      → wrapped r ≡ some (ok a, w)
      → r ≡ (ok a, w)
  unfolding wrapped
  wrapped-eq_ok (ok b, v) h = cc
  wrapped-eq_ok (err e, v) h = absurd (cc)

  pub go_on-eq_ok :
      {A B : Type 0} (o : Outcome World Native A) (rest : A → Call World Native B) {b : B}
      {w : World}
      → go_on o rest ≡ some (ok b, w)
      → (a : A) × (v : World) × (o ≡ some (ok a, v)) × (rest a v ≡ some (ok b, w))
  unfolding go_on
  go_on-eq_ok none rest h = absurd (cc)
  go_on-eq_ok (some (err e, v)) rest h = absurd (cc)
  go_on-eq_ok (some (ok a, v)) rest h = (a, v, refl, h)

module _ {World Native : Type 0} (scm : Manager World Native) (handle : ℕ) where
  -- The service is asked for its state, and the world behind the query.
  abbrev pub Reads : World → ℕ → World → Type 0
  Reads w state w1 = scm.query_status handle w ≡ (ok state, w1)

  -- Rounds of polling, each of which reads a state of some kind and sleeps.
  pub data Polls (Kind : ℕ → Type 0) : World → World → Type 0 where
    no_round : {w : World} → Polls Kind w w
    one_round :
        {w w1 w2 : World} (state : ℕ)
        → Reads w state w1
        → Kind state
        → Polls Kind (scm.sleep poll_interval w1) w2
        → Polls Kind w w2

  -- Polling until the service is in the target state.
  abbrev pub Arrives : ℕ → World → World → Type 0
  Arrives target w w' = (v : World) × Polls (λ s. s ≢ target) w v × Reads v target w'

  -- Polling until the service is in a state that is not pending, which is the one that is named.
  abbrev pub Settles : World → ℕ → World → Type 0
  Settles w state w' =
      (is_pending state ≡ false)
      × ((v : World) × Polls (λ s. is_pending s ≡ true) w v × Reads v state w')

  read_pair :
      (w : World) (state : ℕ) (w1 : World)
      → (scm.query_status handle w).0 ≡ ok state
      → (scm.query_status handle w).1 ≡ w1
      → Reads w state w1
  read_pair w state w1 e f = ap₂ (λ r v. (r, v)) e f

  target_round-eq_ok :
      (target at : ℕ) (r : Result Native ℕ) (w : World) (rest : Outcome World Native (Unit {0}))
      {w' : World}
      → target_round scm target at r w rest ≡ some (ok tt, w')
      → ((r ≡ ok target) × (w ≡ w'))
        ⊎ ((s : ℕ) × (r ≡ ok s) × (s ≢ target) × (rest ≡ some (ok tt, w')))
  unfolding target_round
  target_round-eq_ok target at (err e) w rest h = absurd (cc)
  target_round-eq_ok target at (ok state) w rest h = elim (Bool-cases (state == target)) [
    | inl there ↦
        let e : state ≡ target = (==_iff state target).0 there in inl (ap ok e, cc (rw there at h))
    | inr away ↦ elim (Bool-cases (passed scm at w)) [
      | inl late ↦ absurd (cc (rw (away, late) at h))
      | inr early ↦ inr (state, refl, (λ e. ground arith), rw (away, early) at h)
    ]
  ]

  settled_round-eq_ok :
      (at : ℕ) (r : Result Native ℕ) (w : World) (rest : Outcome World Native ℕ) {state : ℕ}
      {w' : World}
      → settled_round scm at r w rest ≡ some (ok state, w')
      → ((r ≡ ok state) × (w ≡ w') × (is_pending state ≡ false))
        ⊎ ((s : ℕ) × (r ≡ ok s) × (is_pending s ≡ true) × (rest ≡ some (ok state, w')))
  unfolding settled_round
  settled_round-eq_ok at (err e) w rest h = absurd (cc)
  settled_round-eq_ok at (ok s) w rest {state} {w'} h = elim (Bool-cases (is_pending s)) [
    | inr settled ↦
        let e : s ≡ state = cc (rw settled at h) in
        inl (ap ok e, cc (rw settled at h), ap is_pending (sym e) ∙ settled)
    | inl pending ↦ elim (Bool-cases (passed scm at w)) [
      | inl late ↦ absurd (cc (rw (pending, late) at h))
      | inr early ↦ inr (s, refl, pending, rw (pending, early) at h)
    ]
  ]

  pub wait_for_state-Arrives :
      (fuel target at : ℕ) (w : World) {w' : World}
      → wait_for_state scm fuel handle target at w ≡ some (ok tt, w')
      → Arrives target w w'
  wait_for_state-Arrives zero target at w h =
      absurd (cc (h, wait_for_state-zero scm handle target at w))
  wait_for_state-Arrives (suc fuel) target at w h =
      elim (target_round-eq_ok target at _ _ _ (rw (wait_for_state_step scm) at h)) [
        | inl (e, f) ↦ (w, no_round, read_pair w target _ e f)
        | inr (s, e, away, rest) ↦
            let (v, polls, reads) = wait_for_state-Arrives fuel target at _ rest in
            (v, one_round s (read_pair w s _ e refl) away polls, reads)
      ]

  pub wait_until_settled-Settles :
      (fuel at : ℕ) (w : World) {state : ℕ} {w' : World}
      → wait_until_settled scm fuel handle at w ≡ some (ok state, w')
      → Settles w state w'
  wait_until_settled-Settles zero at w h = absurd (cc (h, wait_until_settled-zero scm handle at w))
  wait_until_settled-Settles (suc fuel) at w h =
      elim (settled_round-eq_ok at _ _ _ (rw (wait_until_settled_step scm) at h)) [
        | inl (e, f, settled) ↦ (settled, (w, no_round, read_pair w _ _ e f))
        | inr (s, e, pending, rest) ↦
            let (settled, (v, polls, reads)) = wait_until_settled-Settles fuel at _ rest in
            (settled, (v, one_round s (read_pair w s _ e refl) pending polls, reads))
      ]

  -- A state that is not pending, read at once or behind a state that is pending.
  pub data Decides : World → ℕ → World → Type 0 where
    at_once :
        {w w1 : World} {state : ℕ}
        → Reads w state w1
        → is_pending state ≡ false
        → Decides w state w1
    when_settled :
        {w w1 w2 : World} {pending state : ℕ}
        → Reads w pending w1
        → is_pending pending ≡ true
        → Settles w1 state w2
        → Decides w state w2

  -- How a verb comes to its target: nothing is sent where the service is there or on its way, and
  -- the control is sent once, from a settled state that is not the target.
  pub data Drives (control : Control World Native) : World → World → Type 0 where
    already_there : {w w' : World} → Decides w control.target w' → Drives control w w'
    on_its_way :
        {w w1 w' : World}
        → Reads w control.target_pending w1
        → Arrives control.target w1 w'
        → Drives control w w'
    sent :
        {w w1 w2 w' : World} (state : ℕ)
        → Decides w state w1
        → state ≢ control.target
        → control.send w1 ≡ (ok tt, w2)
        → Arrives control.target w2 w'
        → Drives control w w'

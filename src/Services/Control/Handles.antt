-- ===== src/Services/Control/Handles.antt =====
-- Handles: what a verb opens, it closes.
pub mod Verbs
use pwshpy.Base.{
  List, [], ◌∷◌, In, refl, if◌then◌else◌, ℕ, zero, suc, subst, ◌+◌, ◌-◌, ◌≡◌, ap, ◌∙◌, Bool, true,
  false, Option, none, some, Result, ok, err, arith, Bool-cases, inl, inr, ◌==◌,
}
use pwshpy.Text.{Text}
use pwshpy.Enums.ServiceStartType.{ServiceStartType}
use pwshpy.Marshal.Services.{from_service_start_type}
use pwshpy.Services.Monad.{Outcome, Call, wrapped, return, go_on, finally_do}
use pwshpy.Services.Control.{
  Manager, Control, ControlStep, done, await_target, settle_first, issue, ServiceInfo, service_info,
  is_pending, passed, poll_interval, target_round, settled_round, wait_for_state,
  wait_until_settled, settle, send_control, wait_if, step_in, drive, query_one, with_service,
  start_control, stop_control, start, stop, restart, set_startup, change_to,
}

-- The open handles behind a call that opens one, which comes first.
abbrev pub with_opened : {Native : Type 0} → Result Native ℕ → List ℕ → List ℕ
with_opened (ok h) held = h ∷ held
with_opened (err e) held = held

-- The open handles behind the closing of one of them.
abbrev pub without_closed : ℕ → List ℕ → List ℕ
without_closed h [] = []
without_closed h (k ∷ held) = if h == k then held else k ∷ without_closed h held

-- Which handles are open, and what the calls of the operating system do to them. Nothing is said of
-- the closing of a handle that is not open.
pub record TracksHandles {World Native : Type 0} (scm : Manager World Native) : Type 0 where
  pub held : World → List ℕ
  pub open_manager_open :
      (w : World) → held (scm.open_manager w).1 ≡ with_opened (scm.open_manager w).0 (held w)
  pub open_service_open :
      (manager : ℕ) (name : Text) (access : ℕ) (w : World)
      → held (scm.open_service manager name access w).1
        ≡ with_opened (scm.open_service manager name access w).0 (held w)
  pub close_handle_open :
      (h : ℕ) (w : World) → In h (held w) → held (scm.close_handle h w) ≡ without_closed h (held w)
  pub query_status_open : (h : ℕ) (w : World) → held (scm.query_status h w).1 ≡ held w
  pub query_status_ex_open : (h : ℕ) (w : World) → held (scm.query_status_ex h w).1 ≡ held w
  pub query_config_open : (h : ℕ) (w : World) → held (scm.query_config h w).1 ≡ held w
  pub start_service_open : (h : ℕ) (w : World) → held (scm.start_service h w).1 ≡ held w
  pub control_stop_open : (h : ℕ) (w : World) → held (scm.control_stop h w).1 ≡ held w
  pub change_start_type_open : (h n : ℕ) (w : World) → held (scm.change_start_type h n w).1 ≡ held w
  pub sleep_open : (n : ℕ) (w : World) → held (scm.sleep n w) ≡ held w

module _ {World Native : Type 0} (scm : Manager World Native) (laws : TracksHandles scm) where
  -- Whatever the outcome, those handles are open behind it.
  unfoldable pub Leaves : {A : Type 0} → List ℕ → Outcome World Native A → Type 0
  Leaves hs none = Unit
  Leaves hs (some (r, w)) = laws.held w ≡ hs

  pub Leaves-return :
      {A : Type 0} (hs : List ℕ) (a : A) (w : World) → laws.held w ≡ hs → Leaves hs (return a w)
  unfolding Leaves
  Leaves-return hs a w h = h

  pub Leaves-wrapped :
      {A : Type 0} (hs : List ℕ) (r : Result Native A × World)
      → laws.held r.1 ≡ hs
      → Leaves hs (wrapped r)
  unfolding Leaves wrapped go_on finally_do target_round settled_round
  Leaves-wrapped hs (ok a, w) h = h
  Leaves-wrapped hs (err e, w) h = h

  pub Leaves-go_on :
      {A B : Type 0} (hs : List ℕ) (o : Outcome World Native A) (rest : A → Call World Native B)
      → Leaves hs o
      → ((a : A) (w : World) → laws.held w ≡ hs → Leaves hs (rest a w))
      → Leaves hs (go_on o rest)
  unfolding Leaves wrapped go_on finally_do target_round settled_round
  Leaves-go_on hs none rest h k = tt
  Leaves-go_on hs (some (err e, w)) rest h k = h
  Leaves-go_on hs (some (ok a, w)) rest h k = k a w h

  pub Leaves-finally_do :
      {A : Type 0} (hs : List ℕ) (h : ℕ) (o : Outcome World Native A)
      → Leaves (h ∷ hs) o
      → Leaves hs (finally_do o (scm.close_handle h))
  unfolding Leaves wrapped go_on finally_do target_round settled_round
  Leaves-finally_do hs h none k = tt
  Leaves-finally_do hs h (some (r, w)) k =
      let is_open : In h (laws.held w) = rw k (inl refl) in
      let self : (h == h) ≡ true = ground arith in
      laws.close_handle_open h w is_open ∙ rw (k, self) refl

  -- Opening a handle: it is open for what comes next, if it is opened.
  pub Leaves-opened :
      {B : Type 0} (hs : List ℕ) (r : Result Native ℕ × World) (rest : ℕ → Call World Native B)
      → laws.held r.1 ≡ with_opened r.0 hs
      → ((h : ℕ) (w : World) → laws.held w ≡ h ∷ hs → Leaves hs (rest h w))
      → Leaves hs (go_on (wrapped r) rest)
  unfolding Leaves wrapped go_on finally_do target_round settled_round
  Leaves-opened hs (ok h, w) rest e k = k h w e
  Leaves-opened hs (err e, w) rest k l = k

  Leaves-target_round :
      (hs : List ℕ) (target at : ℕ) (r : Result Native ℕ) (w : World)
      (rest : Outcome World Native (Unit {0}))
      → laws.held w ≡ hs
      → Leaves hs rest
      → Leaves hs (target_round scm target at r w rest)
  unfolding Leaves wrapped go_on finally_do target_round settled_round
  Leaves-target_round hs target at (err e) w rest h k = h
  Leaves-target_round hs target at (ok state) w rest h k = elim (Bool-cases (state == target)) [
    | inl there ↦ rw there h
    | inr away ↦ elim (Bool-cases (passed scm at w)) [
      | inl late ↦ rw (away, late) h
      | inr early ↦ rw (away, early) k
    ]
  ]

  Leaves-settled_round :
      (hs : List ℕ) (at : ℕ) (r : Result Native ℕ) (w : World) (rest : Outcome World Native ℕ)
      → laws.held w ≡ hs
      → Leaves hs rest
      → Leaves hs (settled_round scm at r w rest)
  unfolding Leaves wrapped go_on finally_do target_round settled_round
  Leaves-settled_round hs at (err e) w rest h k = h
  Leaves-settled_round hs at (ok state) w rest h k = elim (Bool-cases (is_pending state)) [
    | inr settled ↦ rw settled h
    | inl pending ↦ elim (Bool-cases (passed scm at w)) [
      | inl late ↦ rw (pending, late) h
      | inr early ↦ rw (pending, early) k
    ]
  ]

  Leaves-wait_for_state :
      (fuel handle target at : ℕ) (hs : List ℕ) (w : World)
      → laws.held w ≡ hs
      → Leaves hs (wait_for_state scm fuel handle target at w)
  unfolding wait_for_state
  Leaves-wait_for_state zero handle target at hs w h = unfold Leaves in tt
  Leaves-wait_for_state (suc fuel) handle target at hs w h =
      let (r, w1) = scm.query_status handle w in
      let h1 = laws.query_status_open handle w ∙ h in
      Leaves-target_round hs target at _ _ _ h1
        (Leaves-wait_for_state fuel handle target at hs _ (laws.sleep_open poll_interval _ ∙ h1))

  Leaves-wait_until_settled :
      (fuel handle at : ℕ) (hs : List ℕ) (w : World)
      → laws.held w ≡ hs
      → Leaves hs (wait_until_settled scm fuel handle at w)
  unfolding wait_until_settled
  Leaves-wait_until_settled zero handle at hs w h = unfold Leaves in tt
  Leaves-wait_until_settled (suc fuel) handle at hs w h =
      let h1 = laws.query_status_open handle w ∙ h in
      Leaves-settled_round hs at _ _ _ h1
        (Leaves-wait_until_settled fuel handle at hs _ (laws.sleep_open poll_interval _ ∙ h1))

  module _ (fuel handle : ℕ) (control : Control World Native) (at : ℕ) (wait : Bool)
      (hs : List ℕ) where
    Leaves-settle :
        (step : ControlStep) (w : World)
        → laws.held w ≡ hs
        → Leaves hs (settle scm fuel handle control at wait step w)
    Leaves-settle settle_first w h =
        Leaves-go_on hs _ _ (Leaves-wait_until_settled fuel handle at hs w h)
          (λ state w' k. Leaves-return hs (step_in scm fuel handle control at wait state) w' k)
    Leaves-settle done w h = Leaves-return hs done w h
    Leaves-settle await_target w h = Leaves-return hs await_target w h
    Leaves-settle issue w h = Leaves-return hs issue w h

    Leaves-send_control :
        ((w : World) → laws.held (control.send w).1 ≡ laws.held w)
        → (step : ControlStep) (w : World) → laws.held w ≡ hs
        → Leaves hs (send_control scm fuel handle control at wait step w)
    Leaves-send_control keeps issue w h = Leaves-wrapped hs _ (keeps w ∙ h)
    Leaves-send_control keeps done w h = Leaves-return hs tt w h
    Leaves-send_control keeps await_target w h = Leaves-return hs tt w h
    Leaves-send_control keeps settle_first w h = Leaves-return hs tt w h

    Leaves-wait_if :
        (b : Bool) (step : ControlStep) (w : World)
        → laws.held w ≡ hs
        → Leaves hs (wait_if scm fuel handle control at wait b step w)
    Leaves-wait_if false step w h = Leaves-return hs tt w h
    Leaves-wait_if true done w h = Leaves-return hs tt w h
    Leaves-wait_if true await_target w h =
        Leaves-wait_for_state fuel handle control.target at hs w h
    Leaves-wait_if true settle_first w h =
        Leaves-wait_for_state fuel handle control.target at hs w h
    Leaves-wait_if true issue w h = Leaves-wait_for_state fuel handle control.target at hs w h

    pub Leaves-drive :
        ((w : World) → laws.held (control.send w).1 ≡ laws.held w)
        → (w : World) → laws.held w ≡ hs
        → Leaves hs (drive scm fuel handle control at wait w)
    unfolding drive
    Leaves-drive keeps w h =
        Leaves-go_on hs _ _ (Leaves-wrapped hs _ (laws.query_status_open handle w ∙ h))
          (λ state w1 h1. Leaves-go_on hs _ _ (Leaves-settle _ w1 h1) (λ step w2 h2.
            Leaves-go_on hs _ _ (Leaves-send_control keeps step w2 h2)
              (λ u w3 h3. Leaves-wait_if wait step w3 h3)))

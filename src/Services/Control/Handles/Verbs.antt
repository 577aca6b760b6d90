-- ===== src/Services/Control/Handles/Verbs.antt =====
-- The handles of the verbs and of a query.
use pwshpy.Base.{List, ◌∷◌, ℕ, subst, ◌≡◌, ap, ◌∙◌, Bool, true, Option, none, some}
use pwshpy.Text.{Text}
use pwshpy.Enums.ServiceStartType.{ServiceStartType}
use pwshpy.Marshal.Services.{from_service_start_type}
use pwshpy.Services.Monad.{Call}
use pwshpy.Services.Control.{
  Manager, ServiceInfo, service_info, query_one, with_service, start_control, stop_control, start,
  stop, restart, set_startup, change_to,
}
use pwshpy.Services.Control.Handles.{
  with_opened, TracksHandles, Leaves, Leaves-opened, Leaves-finally_do, Leaves-go_on,
  Leaves-wrapped, Leaves-return, Leaves-drive,
}

module _ {World Native : Type 0} (scm : Manager World Native) (laws : TracksHandles scm) where
  Leaves-query_one :
      (manager : ℕ) (hs : List ℕ) (name : Text) (w : World)
      → laws.held w ≡ hs
      → Leaves scm laws hs (query_one scm manager name w)
  unfolding query_one
  Leaves-query_one manager hs name w e =
      Leaves-opened scm laws hs _ _
        (laws.open_service_open manager name scm.query_access w
          ∙ ap (with_opened (scm.open_service manager name scm.query_access w).0) e)
        (λ handle w1 h1. Leaves-finally_do scm laws hs handle _ (
          Leaves-go_on scm laws (handle ∷ hs) _ _
            (Leaves-wrapped scm laws (handle ∷ hs) _ (laws.query_status_ex_open handle w1 ∙ h1))
            (λ status w2 h2.
              Leaves-go_on scm laws (handle ∷ hs) _ _
                (Leaves-wrapped scm laws (handle ∷ hs) _ (laws.query_config_open handle w2 ∙ h2))
                (λ config w3 h3.
                  Leaves-return scm laws (handle ∷ hs) (service_info name status config) w3 h3))))

  Leaves-with_service :
      (name : Text) (access : ℕ) (act : ℕ → Call World Native (Unit {0}))
      → ((h : ℕ) (hs : List ℕ) (w : World) → laws.held w ≡ hs → Leaves scm laws hs (act h w))
      → (w : World) → Leaves scm laws (laws.held w) (with_service scm name access act w)
  unfolding with_service
  Leaves-with_service name access act acts w =
      let hs = laws.held w in
      Leaves-opened scm laws hs _ _ (laws.open_manager_open w) (λ manager w1 h1.
        Leaves-finally_do scm laws hs manager _ (
          Leaves-opened scm laws (manager ∷ hs) _ _
            (laws.open_service_open manager name access w1
              ∙ ap (with_opened (scm.open_service manager name access w1).0) h1)
            (λ handle w2 h2.
              Leaves-go_on scm laws (manager ∷ hs) _ _
                (Leaves-finally_do scm laws (manager ∷ hs) handle _
                  (acts handle (handle ∷ manager ∷ hs) w2 h2))
                (λ u w3 h3. Leaves-query_one manager (manager ∷ hs) name w3 h3))))

  Leaves-change_to :
      (h : ℕ) (id : Option ℕ) (n : List ℕ) (w : World)
      → laws.held w ≡ n
      → Leaves scm laws n (change_to scm h id w)
  Leaves-change_to h none n w k = Leaves-return scm laws n tt w k
  Leaves-change_to h (some id) n w k =
      Leaves-wrapped scm laws n _ (laws.change_start_type_open h id w ∙ k)

  start-Leaves :
      (fuel timeout : ℕ) (name : Text) (w : World)
      → Leaves scm laws (laws.held w) (start scm fuel name timeout w)
  unfolding start
  start-Leaves fuel timeout name w =
      Leaves-with_service name scm.start_access _
        (λ h n w1 k.
          Leaves-drive scm laws fuel h (start_control scm h) _ true n (laws.start_service_open h) w1
            k)
        w

  stop-Leaves :
      (fuel timeout : ℕ) (wait : Bool) (name : Text) (w : World)
      → Leaves scm laws (laws.held w) (stop scm fuel name timeout wait w)
  unfolding stop
  stop-Leaves fuel timeout wait name w =
      Leaves-with_service name scm.stop_access _
        (λ h n w1 k.
          Leaves-drive scm laws fuel h (stop_control scm h) _ wait n (laws.control_stop_open h) w1
            k)
        w

  restart-Leaves :
      (fuel timeout : ℕ) (name : Text) (w : World)
      → Leaves scm laws (laws.held w) (restart scm fuel name timeout w)
  unfolding restart
  restart-Leaves fuel timeout name w =
      Leaves-go_on scm laws _ _ _ (stop-Leaves fuel timeout true name w) again
    where
      again :
          (info : ServiceInfo) (w1 : World)
          → laws.held w1 ≡ laws.held w
          → Leaves scm laws (laws.held w) (start scm fuel name timeout w1)
      again info w1 e =
          subst (λ n. Leaves scm laws n (start scm fuel name timeout w1)) e
            (start-Leaves fuel timeout name w1)

  -- Each verb leaves open the handles that it found open, and no others, whether it returns or raises:
  -- if opening a handle adds it where it succeeds, closing an open one removes that one, and no other
  -- call opens or closes any.
  pub verbs-Leaves :
      (fuel timeout : ℕ) (wait : Bool) (start_type : ServiceStartType) (name : Text) (w : World)
      → Leaves scm laws (laws.held w) (start scm fuel name timeout w)
        × Leaves scm laws (laws.held w) (stop scm fuel name timeout wait w)
        × Leaves scm laws (laws.held w) (restart scm fuel name timeout w)
        × Leaves scm laws (laws.held w) (set_startup scm name start_type w)
  unfolding set_startup
  verbs-Leaves fuel timeout wait start_type name w = (
    start-Leaves fuel timeout name w,
    stop-Leaves fuel timeout wait name w,
    restart-Leaves fuel timeout name w,
    Leaves-with_service name scm.change_config_access _
        (λ h n w1 k. Leaves-change_to h (from_service_start_type start_type) n w1 k) w,
  )

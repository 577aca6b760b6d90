-- ===== src/Services/Control/Rounds.antt =====
-- One round of each wait.
use pwshpy.Base.{ℕ, zero, none, suc, ◌≡◌, refl}
use pwshpy.Services.Control.{
  Manager, poll_interval, target_round, settled_round, wait_for_state, wait_until_settled,
}

module _ {World Native : Type 0} (scm : Manager World Native) where
  pub wait_for_state_step :
      (fuel handle target at : ℕ) (w : World)
      → wait_for_state scm (suc fuel) handle target at w
        ≡ target_round scm target at (scm.query_status handle w).0 (scm.query_status handle w).1 (
            wait_for_state scm fuel handle target at
              (scm.sleep poll_interval (scm.query_status handle w).1))
  wait_for_state_step fuel handle target at w = unfold wait_for_state in refl

  pub wait_until_settled_step :
      (fuel handle at : ℕ) (w : World)
      → wait_until_settled scm (suc fuel) handle at w
        ≡ settled_round scm at (scm.query_status handle w).0 (scm.query_status handle w).1 (
            wait_until_settled scm fuel handle at
              (scm.sleep poll_interval (scm.query_status handle w).1))
  wait_until_settled_step fuel handle at w = unfold wait_until_settled in refl

  pub wait_for_state-zero :
      (handle target at : ℕ) (w : World) → wait_for_state scm zero handle target at w ≡ none
  wait_for_state-zero handle target at w = unfold wait_for_state in refl

  pub wait_until_settled-zero :
      (handle at : ℕ) (w : World) → wait_until_settled scm zero handle at w ≡ none
  wait_until_settled-zero handle at w = unfold wait_until_settled in refl

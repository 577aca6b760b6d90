-- ===== src/Services/Monad.antt =====
-- Calls of the service control manager: the manager, the services and the clock are one state of the
-- world. A call returns or raises, and a loop that runs out of fuel has no outcome.
use pwshpy.Base.{ℕ, Option, none, some, Result, ok, err}

-- What is raised: an `OperationTimeoutError`, with the state waited for or the pending state, or a
-- `NativeCallError`.
pub data ControlError (Native : Type 0) : Type 0 where
  target_not_reached : ℕ → ControlError Native
  still_pending : ℕ → ControlError Native
  native : Native → ControlError Native

module _ (World Native : Type 0) where
  abbrev pub Outcome : Type 0 → Type 0
  Outcome A = Option (Result (ControlError Native) A × World)

  abbrev pub Call : Type 0 → Type 0
  Call A = World → Outcome A

module _ {World Native : Type 0} where
  -- A call of the operating system, which `native_error` wraps where it fails.
  unfoldable pub wrapped : {A : Type 0} → Result Native A × World → Outcome World Native A
  wrapped (ok a, w) = some (ok a, w)
  wrapped (err e, w) = some (err (native e), w)

  abbrev pub return : {A : Type 0} → A → Call World Native A
  return a w = some (ok a, w)

  -- What comes next, unless something was raised.
  unfoldable pub go_on :
      {A B : Type 0} → Outcome World Native A → (A → Call World Native B) → Outcome World Native B
  go_on none rest = none
  go_on (some (err e, w)) rest = some (err e, w)
  go_on (some (ok a, w)) rest = rest a w

  -- `finally`: what is raised in front of it is raised behind it.
  unfoldable pub finally_do :
      {A : Type 0} → Outcome World Native A → (World → World) → Outcome World Native A
  finally_do none close = none
  finally_do (some (r, w)) close = some (r, close w)

  infixl 5 ◌>>=◌ ◌>>◌
  abbrev pub ◌>>=◌ :
      {A B : Type 0} → Call World Native A → (A → Call World Native B) → Call World Native B
  ◌>>=◌ m rest w = go_on (m w) rest

  abbrev pub ◌>>◌ : {A B : Type 0} → Call World Native A → Call World Native B → Call World Native B
  ◌>>◌ m rest w = go_on (m w) (λ a. rest)

  abbrev pub finally : {A : Type 0} → Call World Native A → (World → World) → Call World Native A
  finally m close w = finally_do (m w) close

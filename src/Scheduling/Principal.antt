-- ===== src/Scheduling/Principal.antt =====
-- `TaskPrincipal` of src/pwshpy/domain/scheduling.py, with `TaskLogonType` and `TaskRunLevel` of
-- src/pwshpy/domain/enums.py.
pub mod LogonType
use pwshpy.Base.{
  Bool, false, List, [], ◌∷◌, Option, none, some, if◌then◌else◌, Result, ok, err, ◌>>=◌,
}
use pwshpy.Text.{Text, mem_text}
use pwshpy.Scheduling.Identity.{
  IdentityError, Given, text, identity, local_system, local_service, network_service, sid_value,
  is_sid, is_uid,
}

pub data TaskLogonType : Type 0 where
  interactive_token service_account s4u : TaskLogonType

pub data TaskRunLevel : Type 0 where
  limited highest : TaskRunLevel

pub record TaskPrincipal : Type 0 where
  pub user_id : Option Text
  pub logon_type : Option TaskLogonType
  pub run_level : TaskRunLevel

-- The constructor, with its validator.
unfoldable pub new_principal :
    Given → Option TaskLogonType → TaskRunLevel → Result IdentityError TaskPrincipal
new_principal given logon_type run_level = identity given >>= λ user_id.
    ok (record { user_id = user_id; logon_type = logon_type; run_level = run_level })

-- `TaskPrincipal.system()`
abbrev pub system : Result IdentityError TaskPrincipal
system = new_principal (text (sid_value local_system)) none highest

-- `_SERVICE_SIDS`
abbrev pub service_sids : List Text
service_sids = sid_value local_system ∷ sid_value local_service ∷ sid_value network_service ∷ []

abbrev pub holds : (Text → Bool) → Option Text → Bool
holds test none = false
holds test (some t) = test t

-- The property `is_sid` of a principal.
unfoldable pub has_sid : TaskPrincipal → Bool
has_sid p = holds is_sid p.user_id

-- The property `is_uid` of a principal.
unfoldable pub has_uid : TaskPrincipal → Bool
has_uid p = holds is_uid p.user_id

unfoldable pub is_service_account : TaskPrincipal → Bool
is_service_account p = holds (λ t. mem_text t service_sids) p.user_id

-- What `user_id` implies.
abbrev pub implied_logon_type : TaskPrincipal → Option Text → TaskLogonType
implied_logon_type p none = interactive_token
implied_logon_type p (some t) = if is_service_account p then service_account else s4u

abbrev pub explicit_or_implied : TaskPrincipal → Option TaskLogonType → TaskLogonType
explicit_or_implied p none = implied_logon_type p p.user_id
explicit_or_implied p (some explicit) = explicit

unfoldable pub effective_logon_type : TaskPrincipal → TaskLogonType
effective_logon_type p = explicit_or_implied p p.logon_type

-- ===== src/Scheduling/Principal/LogonType.antt =====
-- How a principal logs on.
use pwshpy.Base.{
  true, ◌≡◌, ◌↔◌, refl, ap, ◌∙◌, Option, none, some, Bool-cases, inl, inr, ◌⊎◌, arith,
}
use pwshpy.Text.{Text, mem_text, text_eq}
use pwshpy.Text.Laws.{text_eq→eq, text_eq_refl}
use pwshpy.Scheduling.Identity.{sid_value, local_system, local_service, network_service}
use pwshpy.Scheduling.Principal.{
  TaskPrincipal, interactive_token, service_account, TaskRunLevel, is_service_account,
  effective_logon_type, service_sids,
}

-- The text is the SID of SYSTEM, LOCAL SERVICE or NETWORK SERVICE.
abbrev pub IsServiceSid : Text → Type 0
IsServiceSid t =
    (t ≡ sid_value local_system) ⊎ ((t ≡ sid_value local_service) ⊎ (t ≡ sid_value network_service))

mem_service_sids→IsServiceSid : (t : Text) → mem_text t service_sids ≡ true → IsServiceSid t
unfolding mem_text
mem_service_sids→IsServiceSid t h = elim (Bool-cases (text_eq t (sid_value local_system))) [
  | inl a ↦ inl (text_eq→eq t _ a)
  | inr a ↦ elim (Bool-cases (text_eq t (sid_value local_service))) [
    | inl b ↦ inr (inl (text_eq→eq t _ b))
    | inr b ↦ elim (Bool-cases (text_eq t (sid_value network_service))) [
      | inl c ↦ inr (inr (text_eq→eq t _ c))
      | inr c ↦ absurd (cc (rw (a, b, c) at h))
    ]
  ]
]

IsServiceSid→mem_service_sids : (t : Text) → IsServiceSid t → mem_text t service_sids ≡ true
unfolding mem_text
IsServiceSid→mem_service_sids t (inl e) =
    ground
      (arith, ap (λ s. text_eq s (sid_value local_system)) e, text_eq_refl (sid_value local_system))
IsServiceSid→mem_service_sids t (inr (inl e)) =
    ground (
      arith,
      ap (λ s. text_eq s (sid_value local_service)) e,
      text_eq_refl (sid_value local_service),
    )
IsServiceSid→mem_service_sids t (inr (inr e)) = ground (
  arith,
  ap (λ s. text_eq s (sid_value network_service)) e,
  text_eq_refl (sid_value network_service),
)

-- The principal of a user with no logon type of its own.
abbrev pub without_logon_type : Option Text → TaskRunLevel → TaskPrincipal
without_logon_type user_id run_level = record {
  user_id = user_id;
  logon_type = none;
  run_level = run_level;
}

-- A principal without a logon type of its own logs on interactively exactly if it has no user, and
-- as a service account exactly if its user is one of the three service SIDs.
pub effective_logon_type_iff :
    (user_id : Option Text) (run_level : TaskRunLevel)
    → ((effective_logon_type (without_logon_type user_id run_level) ≡ interactive_token)
        ↔ (user_id ≡ none))
      × ((effective_logon_type (without_logon_type user_id run_level) ≡ service_account)
          ↔ ((t : Text) × (user_id ≡ some t) × IsServiceSid t))
unfolding effective_logon_type is_service_account
effective_logon_type_iff none run_level = ((λ h. refl, λ h. refl), (λ h. cc, λ (t, e, k). cc))
effective_logon_type_iff (some t) run_level = elim (Bool-cases (mem_text t service_sids)) [
  | inl service ↦
      rw service
        ((λ h. cc, λ h. cc), (λ h. (t, refl, mem_service_sids→IsServiceSid t service), λ h. refl))
  | inr other ↦
      rw other ((λ h. cc, λ h. cc), (λ h. cc, λ (u, e, k). absurd (cc (clash u e k, other))))
]
  where
    clash : (u : Text) → some t ≡ some u → IsServiceSid u → mem_text t service_sids ≡ true
    clash u e k =
        let same : t ≡ u = cc in
        ap (λ s. mem_text s service_sids) same ∙ IsServiceSid→mem_service_sids u k

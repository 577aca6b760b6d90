-- ===== src/Scheduling/Identity/Kinds.antt =====
-- What the validator of an identity accepts.
use pwshpy.Base.{
  true, false, ◌≡◌, refl, ap, ◌∙◌, ◌++◌, some, Bool-cases, inl, inr, ◌⊎◌, &&-true, drop, ok,
}
use pwshpy.Text.{Text, codes, starts_with, split}
use pwshpy.Text.Laws.{starts_with→eq}
use pwshpy.Scheduling.Identity.{
  WellKnownSid, everyone, local_system, local_service, network_service, authenticated_users,
  administrators, users, guests, power_users, remote_desktop_users, sid_value, is_number, is_sid,
  is_canonical, is_uid, Given, nothing, member, text, other, identity_of_text, identity,
}

-- Of the two kinds of identity, the text is one.
abbrev pub IsOneKind : Text → Type 0
IsOneKind t = ((is_sid t ≡ true) × (is_uid t ≡ false)) ⊎ ((is_sid t ≡ false) × (is_uid t ≡ true))

sid-uid : (t : Text) → is_sid t ≡ true → is_uid t ≡ false
unfolding is_sid
sid-uid t h =
    let (starts, _) = &&-true (starts_with (codes "S-1-") t) _ h in
    ap is_uid (starts_with→eq (codes "S-1-") t starts) ∙ letter (drop 4 t)
  where
    letter : (s : Text) → is_uid (codes "S-1-" ++ s) ≡ false
    letter s = unfold is_uid in unfold is_canonical in refl

identity_of_text-IsOneKind : (t u : Text) → identity_of_text t ≡ ok (some u) → (t ≡ u) × IsOneKind t
unfolding identity_of_text
identity_of_text-IsOneKind t u h = elim (Bool-cases (is_sid t)) [
  | inl sid ↦ (cc (rw sid at h), inl (sid, sid-uid t sid))
  | inr no_sid ↦ elim (Bool-cases (is_uid t)) [
    | inl uid ↦ (cc (rw (no_sid, uid) at h), inr (no_sid, uid))
    | inr no_uid ↦ absurd (cc (rw (no_sid, no_uid) at h))
  ]
]

-- An identity that is accepted is a SID or a uid and not both, and it is accepted again as it is.
pub identity-IsOneKind :
    (given : Given) (t : Text)
    → identity given ≡ ok (some t)
    → IsOneKind t × (identity (text t) ≡ ok (some t))
unfolding identity
identity-IsOneKind nothing t h = cc
identity-IsOneKind (member sid) t h =
    let (e, k) = identity_of_text-IsOneKind (sid_value sid) t h in
    let again : identity_of_text t ≡ ok (some t) = rw (← e) (rw (← e) at h) in (rw (← e) k, again)
identity-IsOneKind (text u) t h =
    let (e, k) = identity_of_text-IsOneKind u t h in
    let again : identity_of_text t ≡ ok (some t) = rw (← e) (rw (← e) at h) in (rw (← e) k, again)
identity-IsOneKind other t h = cc

-- Every well-known SID is accepted and stands for its value.
pub identity-member : (sid : WellKnownSid) → identity (member sid) ≡ ok (some (sid_value sid))
unfolding identity identity_of_text sid_value is_sid is_number starts_with split
identity-member everyone = refl
identity-member local_system = refl
identity-member local_service = refl
identity-member network_service = refl
identity-member authenticated_users = refl
identity-member administrators = refl
identity-member users = refl
identity-member guests = refl
identity-member power_users = refl
identity-member remote_desktop_users = refl

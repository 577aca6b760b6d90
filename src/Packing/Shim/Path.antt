-- ===== src/Packing/Shim/Path.antt =====
-- The PATH that the shim gives back.
use pwshpy.Base.{
  ℕ, ◌-◌, ◌≡◌, refl, ap, ◌∙◌, true, [], ◌∷◌, ◌++◌, none, some, arith, length, length-append, take,
}
use pwshpy.Text.{Text, codes, text_eq, ends_with}
use pwshpy.Text.Laws.{text_eq_refl}
use pwshpy.Packing.Runner.{path_env_var, uv_path_env_var}
use pwshpy.Packing.Shim.{
  Environment, get, without, or_empty, with_path, entries_uv_added, restore_the_callers_path,
}
use pwshpy.Packing.Shim.Lookup.{get-without, get-without-other, get-put, get-put-other}

ends_with-append : (s a : Text) → ends_with s (a ++ s) ≡ true
unfolding ends_with
ends_with-append [] [] = text_eq_refl []
ends_with-append (c ∷ s) [] = ground (arith, text_eq_refl (c ∷ s))
ends_with-append s (d ∷ a) = ground (arith, ends_with-append s a)

take-append-length : (s t : Text) (n : ℕ) → n ≡ length s → take n (s ++ t) ≡ s
take-append-length [] t n e = rw e refl
take-append-length (c ∷ s) t n e = rw e (ap (λ r. c ∷ r) (take-append-length s t (length s) refl))

-- What `uv` put in front of the PATH that it was given is found, if it ends with a separator.
entries_uv_added-append :
    (pathsep : ℕ) (entries given : Text)
    → entries_uv_added pathsep ((entries ++ pathsep ∷ []) ++ given) (some given)
      ≡ entries ++ pathsep ∷ []
unfolding entries_uv_added
entries_uv_added-append pathsep entries given =
    let added = entries ++ pathsep ∷ [] in
    let n : length (added ++ given) - length given ≡ length added =
      omega (arith, length-append added given) in
    rw
      (
        ends_with-append given added,
        take-append-length added given _ n,
        ends_with-append (pathsep ∷ []) entries,
      )
      refl

-- An elevated run hands over the caller's PATH and the one it gave `uv`, and `uv` has put entries in
-- front of the latter. The shim then leaves the PATH with those entries in front of the caller's,
-- and neither of the variables that handed them over.
pub get-restore_the_callers_path :
    (pathsep : ℕ) (env : Environment) (path given entries : Text)
    → get env path_env_var ≡ some path
    → get env uv_path_env_var ≡ some given
    → get env (codes "PATH") ≡ some ((entries ++ pathsep ∷ []) ++ given)
    → (get (restore_the_callers_path pathsep env) (codes "PATH")
        ≡ some ((entries ++ pathsep ∷ []) ++ path))
      × (get (restore_the_callers_path pathsep env) path_env_var ≡ none)
      × (get (restore_the_callers_path pathsep env) uv_path_env_var ≡ none)
unfolding restore_the_callers_path
get-restore_the_callers_path pathsep env path given entries held uv current =
    let env1 = without env path_env_var in
    let env2 = without env1 uv_path_env_var in
    let given_left : get env1 uv_path_env_var ≡ some given =
      get-without-other env path_env_var uv_path_env_var (unfold text_eq in refl) ∙ uv in
    let current_left : get env2 (codes "PATH") ≡ some ((entries ++ pathsep ∷ []) ++ given) =
      get-without-other env1 uv_path_env_var (codes "PATH") (unfold text_eq in refl)
      ∙ get-without-other env path_env_var (codes "PATH") (unfold text_eq in refl)
      ∙ current in
    let path_gone : get env2 path_env_var ≡ none =
      get-without-other env1 uv_path_env_var path_env_var (unfold text_eq in refl)
      ∙ get-without env path_env_var in
    let final = with_path pathsep env2 (some path) (some given) in
    let made : restore_the_callers_path pathsep env ≡ final = rw (held, given_left) refl in
    rw made (
      get-put env2 (codes "PATH") _
          ∙ ap (λ t. some (entries_uv_added pathsep (or_empty t) (some given) ++ path)) current_left
          ∙ ap (λ t. some (t ++ path)) (entries_uv_added-append pathsep entries given),
      get-put-other env2 (codes "PATH") path_env_var _ (unfold text_eq in refl) ∙ path_gone,
      get-put-other env2 (codes "PATH") uv_path_env_var _ (unfold text_eq in refl)
          ∙ get-without env1 uv_path_env_var,
    )

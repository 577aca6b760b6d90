-- ===== src/Shortcuts/Specs.antt =====
-- Which shortcuts src/pwshpy/domain/shortcuts.py lets exist.
use pwshpy.Base.{◌≡◌, ◌↔◌, refl, subst, Bool, true, List, map, some, ok, first_step, ok-injective}
use pwshpy.Text.{Text}
use pwshpy.Shortcuts.Fields.{IsField, Keeps, optional-IsField, IsField-optional}
use pwshpy.Shortcuts.Stored.{
  icon_index_of-eq_ok, flag-eq_ok, IsLnkPath, IsTarget, IsArguments, lnk_path-eq_ok,
  IsLnkPath-lnk_path, target_of-eq_ok, IsTarget-target_of, arguments_of-eq_ok,
  IsArguments-arguments_of,
}
use pwshpy.Shortcuts.{
  text_value, bool_value, int_value, sequence, working_directory, icon, description, in_int32,
  icon_index_of, flag, optional, lnk_path, target_of, arguments_of, Given, ShortcutSpec, new_spec,
}

module _ (is_absolute : Text → Bool) (suffix : Text → Text) (list2cmdline : List Text → Text) where
  -- What a shortcut can store: every text is clean and within its limit.
  pub IsStored : ShortcutSpec → Type 0
  IsStored spec =
      IsLnkPath is_absolute suffix list2cmdline spec.path
      × IsTarget is_absolute suffix list2cmdline spec.target
      × IsArguments is_absolute suffix list2cmdline spec.arguments
      × IsField spec.working_directory
      × IsField spec.icon
      × (in_int32 spec.icon_index ≡ true)
      × IsField spec.description

  -- What the fields keep of what they are given.
  pub Stores : Given → ShortcutSpec → Type 0
  Stores given spec =
      (given.path ≡ text_value spec.path)
      × (given.target ≡ text_value spec.target)
      × (given.arguments ≡ sequence (map some spec.arguments))
      × Keeps given.working_directory spec.working_directory
      × Keeps given.icon spec.icon
      × (given.icon_index ≡ int_value spec.icon_index)
      × Keeps given.description spec.description
      × (given.run_as_administrator ≡ bool_value spec.run_as_administrator)

  new_spec-IsStored :
      (given : Given) {spec : ShortcutSpec}
      → new_spec is_absolute suffix list2cmdline given ≡ ok spec
      → Stores given spec × IsStored spec
  unfolding new_spec IsStored Stores
  new_spec-IsStored given {spec} h =
      let (p, e1, h1) = first_step (lnk_path is_absolute suffix list2cmdline given.path) _ h in
      let (t, e2, h2) = first_step (target_of is_absolute suffix list2cmdline given.target) _ h1 in
      let (argv, e3, h3) =
        first_step (arguments_of is_absolute suffix list2cmdline given.arguments) _ h2 in
      let (d, e4, h4) = first_step (optional working_directory given.working_directory) _ h3 in
      let (i, e5, h5) = first_step (optional icon given.icon) _ h4 in
      let (n, e6, h6) = first_step (icon_index_of given.icon_index) _ h5 in
      let (c, e7, h7) = first_step (optional description given.description) _ h6 in
      let (b, e8, h8) = first_step (flag given.run_as_administrator) _ h7 in
      let same : record {
        path = p;
        target = t;
        arguments = argv;
        working_directory = d;
        icon = i;
        icon_index = n;
        description = c;
        run_as_administrator = b;
      }
          ≡ spec =
        ok-injective (ok _) refl h8 in
      let (gp, vp) = lnk_path-eq_ok is_absolute suffix list2cmdline given.path e1 in
      let (gt, vt) = target_of-eq_ok is_absolute suffix list2cmdline given.target e2 in
      let (ga, va) = arguments_of-eq_ok is_absolute suffix list2cmdline given.arguments e3 in
      let (gd, vd) = optional-IsField working_directory given.working_directory e4 in
      let (gi, vi) = optional-IsField icon given.icon e5 in
      let (gn, vn) = icon_index_of-eq_ok given.icon_index e6 in
      let (gc, vc) = optional-IsField description given.description e7 in
      let gb = flag-eq_ok given.run_as_administrator e8 in
      subst (λ s. Stores given s × IsStored s) same
        ((gp, gt, ga, gd, gi, gn, gc, gb), (vp, vt, va, vd, vi, vn, vc))

  IsStored-new_spec :
      (given : Given) (spec : ShortcutSpec)
      → Stores given spec
      → IsStored spec
      → new_spec is_absolute suffix list2cmdline given ≡ ok spec
  unfolding new_spec IsStored Stores icon_index_of flag
  IsStored-new_spec given spec (gp, gt, ga, gd, gi, gn, gc, gb) (p, t, argv, d, i, n, c) =
      rw (gp, IsLnkPath-lnk_path is_absolute suffix list2cmdline spec.path p)
        (rw (gt, IsTarget-target_of is_absolute suffix list2cmdline spec.target t)
          (rw (ga, IsArguments-arguments_of is_absolute suffix list2cmdline spec.arguments argv)
            (rw
              (IsField-optional working_directory given.working_directory spec.working_directory gd
                d)
              (rw (IsField-optional icon given.icon spec.icon gi i) (
                rw (gn, n)
                  (rw (IsField-optional description given.description spec.description gc c)
                    (rw gb refl)))))))

  -- A shortcut is made of what is given exactly if it stores that (each text, the arguments in order,
  -- the index and the flag, with nothing for None and for an empty optional text) and is valid: the
  -- path is clean, absolute, names a .lnk file and has 259 characters at most; the target is clean,
  -- absolute or begins with an environment reference, and has 259 at most; the arguments are clean and
  -- join to 32767 characters at most; the optional texts are unset, or clean, not empty and of 260
  -- characters at most; and the icon's index is a signed number of 32 bits.
  pub new_spec_iff :
      (given : Given) (spec : ShortcutSpec)
      → (new_spec is_absolute suffix list2cmdline given ≡ ok spec)
        ↔ (Stores given spec × IsStored spec)
  new_spec_iff given spec = (
    λ h. new_spec-IsStored given h,
    λ (stores, stored). IsStored-new_spec given spec stores stored,
  )

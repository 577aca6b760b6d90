-- ===== src/Packer/Unpack/Spared.antt =====
-- What unpacking leaves as it is.
use pwshpy.Base.{
  Bool, true, false, not, ◌&&◌, ◌||◌, ◌≡◌, ◌≢◌, refl, sym, ap, ◌∙◌, List, [], ◌∷◌, Option, none,
  some, Bool-cases, inl, inr, Result, ok, err,
}
use pwshpy.Text.{Text, text_eq}
use pwshpy.Enums.RunnerFormat.{RunnerFormat, auto, ps1, sh}
use pwshpy.Packing.Runner.{shim_module}
use pwshpy.Packer.Unpack.{
  UnpackError, TarMember, Files, Call, go_on, inside, written_or_error, write_member, with_body,
  also, or_no_bytes, extract_zip, extract_tar, members_or_error, extract, extract_payload,
  unpack_text,
}

-- Writing a file changes no other file, and removes none.
pub record KeepsOthers {World FilePath Body Payload : Type 0}
    (files : Files World FilePath Body Payload) : Type 0 where
  pub write_read :
      (p : FilePath) (body : Body) (w : World) (q : FilePath)
      → q ≢ p
      → files.read (files.write p body w).1 q ≡ files.read w q
  pub write_exists :
      (p : FilePath) (body : Body) (w : World) (q : FilePath)
      → files.exists w q ≡ true
      → files.exists (files.write p body w).1 q ≡ true

module _ {World FilePath Body Payload : Type 0} (files : Files World FilePath Body Payload)
    (keeps : KeepsOthers files) (target : FilePath) (force : Bool) where
  -- No file is removed; a file that is not below the target has what it had, and so has every file
  -- that was there unless overwriting was asked for.
  pub Spares : World → World → Type 0
  Spares w w' =
      (q : FilePath)
      → (files.exists w q ≡ true → files.exists w' q ≡ true)
        × (inside files target force q ≡ false → files.read w' q ≡ files.read w q)
        × (force ≡ false → files.exists w q ≡ true → files.read w' q ≡ files.read w q)

  Spares-refl : (w : World) → Spares w w
  unfolding Spares
  Spares-refl w q = (λ h. h, λ h. refl, λ f h. refl)

  Spares-trans : (w w1 w2 : World) → Spares w w1 → Spares w1 w2 → Spares w w2
  unfolding Spares
  Spares-trans w w1 w2 s t q =
      let (stays, out, kept) = s q in
      let (stays1, out1, kept1) = t q in
      (λ h. stays1 (stays h), λ h. out1 h ∙ out h, λ f h. kept1 f (stays h) ∙ kept f h)

  go_on-Spares :
      {A B : Type 0}
      → (w : World) (r : Result (UnpackError FilePath) A × World) (rest : A → Call files B)
      → Spares w r.1
      → ((a : A) (w1 : World) → Spares w1 (rest a w1).1)
      → Spares w (go_on files r rest).1
  unfolding go_on
  go_on-Spares w (err e, w1) rest s t = s
  go_on-Spares w (ok a, w1) rest s t = Spares-trans w w1 _ s (t a w1)

  written-world :
      (p : FilePath) (r : Bool × World) → (written_or_error files target force p r).1 ≡ r.1
  written-world p (true, w) = refl
  written-world p (false, w) = refl

  write-Spares :
      (p : FilePath) (body : Body) (w : World)
      → inside files target force p ≡ true
      → (files.exists w p && not force) ≡ false
      → Spares w (files.write p body w).1
  unfolding Spares
  write-Spares p body w below new q = (
    keeps.write_exists p body w q,
    λ out.
        keeps.write_read p body w q
          (λ e. absurd (cc (ap (inside files target force) e, below, out))),
    λ unforced there. keeps.write_read p body w q (λ e.
        let there_too : files.exists w p ≡ true = ap (files.exists w) (sym e) ∙ there in
        absurd (cc (rw (there_too, unforced) at new))),
  )

  write_member-Spares :
      (name : Text) (body : Body) (w : World)
      → Spares w (write_member files target force name body w).1
  unfolding write_member
  write_member-Spares name body w =
      let p = files.resolve (files.child target name) in
      elim (Bool-cases (inside files target force p)) [
        | inr out ↦ rw out (Spares-refl w)
        | inl below ↦ elim (Bool-cases (files.exists w p && not force)) [
          | inl refused ↦ rw (below, refused) (Spares-refl w)
          | inr new ↦
              rw (below, new, written-world p (files.write p body w))
                (write-Spares p body w below new)
        ]
      ]

  with_body-Spares :
      (body : Option Body) (rest : Body → Call files (List Text)) (w : World)
      → ((bytes : Body) (w1 : World) → Spares w1 (rest bytes w1).1)
      → Spares w (with_body files target force body rest w).1
  with_body-Spares none rest w s = Spares-refl w
  with_body-Spares (some body) rest w s = s body w

  restored-Spares :
      (name : Text) (body : Option Body) (rest : Call files (List Text)) (w : World)
      → ((w1 : World) → Spares w1 (rest w1).1)
      → Spares w
          (with_body files target force body
            (λ bytes w1.
              go_on files
                (write_member files target force name bytes w1)
                (λ done w2. go_on files (rest w2) (also files target force name)))
            w).1
  restored-Spares name body rest w s = with_body-Spares body _ w (λ bytes w1.
      go_on-Spares w1 (write_member files target force name bytes w1) _
        (write_member-Spares name bytes w1)
        (λ done w2. go_on-Spares w2 (rest w2) _ (s w2) (λ names w3. Spares-refl w3)))

  extract_zip-Spares :
      (members : List (Text × Option Body)) (w : World)
      → Spares w (extract_zip files target force members w).1
  unfolding extract_zip
  extract_zip-Spares [] w = Spares-refl w
  extract_zip-Spares ((name, body) ∷ members) w = elim (Bool-cases (text_eq name shim_module)) [
    | inl shim ↦ rw shim (extract_zip-Spares members w)
    | inr own ↦ rw own (
        restored-Spares name body (extract_zip files target force members) w
          (λ w1. extract_zip-Spares members w1))
  ]

  extract_tar-Spares :
      (members : List (TarMember Body)) (w : World)
      → Spares w (extract_tar files target force members w).1
  unfolding extract_tar
  extract_tar-Spares [] w = Spares-refl w
  extract_tar-Spares (member ∷ members) w =
      elim (Bool-cases (not member.is_file || text_eq member.name shim_module)) [
        | inl skip ↦ rw skip (extract_tar-Spares members w)
        | inr own ↦ rw own (
            restored-Spares member.name (or_no_bytes files target force member.body)
              (extract_tar files target force members) w (λ w1. extract_tar-Spares members w1))
      ]

  members-Spares :
      {M : Type 0}
      → (members : Option (List M)) (restore : List M → Call files (List Text)) (w : World)
      → ((ms : List M) (w1 : World) → Spares w1 (restore ms w1).1)
      → Spares w (members_or_error files target force members restore w).1
  members-Spares none restore w s = Spares-refl w
  members-Spares (some ms) restore w s = s ms w

  extract-Spares :
      (pack : Payload × RunnerFormat) (w : World) → Spares w (extract files target force pack w).1
  extract-Spares (payload, ps1) w =
      members-Spares (files.zip_members payload) _ w extract_zip-Spares
  extract-Spares (payload, sh) w = members-Spares (files.tar_members payload) _ w extract_tar-Spares
  extract-Spares (payload, auto) w =
      members-Spares (files.tar_members payload) _ w extract_tar-Spares

  -- If a write changes no other file and removes none: whatever a runner's archive holds, and whether
  -- unpacking ends with an error or not, no file is removed, no file outside the target changes, and
  -- no file that was there changes without force.
  pub unpack_text-Spares :
      (text : Text) (w : World) → Spares w (unpack_text files target force text w).1
  unfolding unpack_text
  unpack_text-Spares text w =
      go_on-Spares w (extract_payload files text, w) _ (Spares-refl w)
        (λ pack w1. extract-Spares pack w1)

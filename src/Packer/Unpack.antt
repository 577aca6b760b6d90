-- ===== src/Packer/Unpack.antt =====
-- Unpacking a runner: `_slice_payload`, `_extract_payload`, `_decode_payload`, `_extract_zip_members`,
-- `_extract_tar_members`, `_write_member` and the part of `unpack_script` behind the reading of the
-- runner, of src/pwshpy/adapters/native/packer.py.
pub mod Spared
mod Tests
use pwshpy.Base.{
  ℕ, Bool, true, false, not, ◌&&◌, ◌||◌, ◌≡◌, ◌≢◌, List, [], ◌∷◌, ◌++◌, map, Option, none, some,
  if◌then◌else◌, Result, ok, err,
}
use pwshpy.Text.{Text, codes, text_eq, ends_with, strip}
use pwshpy.Text.Lines.{splitlines}
use pwshpy.Enums.RunnerFormat.{RunnerFormat, auto, ps1, sh}
use pwshpy.Packing.Runner.{shim_module}

abbrev pub payload_open : Text
payload_open = codes "$PwshPyPayload = @'"

abbrev pub payload_close : Text
payload_close = codes "'@"

abbrev pub sh_heredoc : Text
sh_heredoc = codes "__PWSHPY_PAYLOAD_B64__"

-- The errors of unpacking.
pub data UnpackError (FilePath : Type 0) : Type 0 where
  no_payload : UnpackError FilePath
  bad_base64 : UnpackError FilePath
  bad_archive : UnpackError FilePath
  escapes : Text → UnpackError FilePath
  already_exists : FilePath → UnpackError FilePath
  cannot_write : FilePath → UnpackError FilePath

-- The lines up to the first that matches, and those behind it.
unfoldable pub cut : (Text → Bool) → List Text → Option (List Text × List Text)
cut matches [] = none
cut matches (line ∷ lines) =
    let rest = cut_more line (cut matches lines) in
    if matches (strip line) then some ([], lines) else rest
  where
    cut_more : Text → Option (List Text × List Text) → Option (List Text × List Text)
    cut_more first none = none
    cut_more first (some (before, behind)) = some (first ∷ before, behind)

abbrev pub before_close : (Text → Bool) → Option (List Text × List Text) → Option (List Text)
before_close is_close none = none
before_close is_close (some (head, behind)) = first_part (cut is_close behind)
  where
    first_part : Option (List Text × List Text) → Option (List Text)
    first_part none = none
    first_part (some (inner, tail)) = some inner

unfoldable pub slice_payload : List Text → (Text → Bool) → (Text → Bool) → Option (List Text)
slice_payload lines is_open is_close = before_close is_close (cut is_open lines)

-- A member of a tar file: whether it is a regular file, and what `extractfile` and `read` give; `none`
-- where they raise.
pub record TarMember (Body : Type 0) : Type 0 where
  pub name : Text
  pub is_file : Bool
  pub body : Option (Option Body)

-- The files, and the libraries for archives; members are listed in the order of their names.
pub record Files (World FilePath Body Payload : Type 0) : Type 0 where
  pub child : FilePath → Text → FilePath
  pub resolve : FilePath → FilePath
  pub parts_below : FilePath → FilePath → Option (List Text)
  pub exists : World → FilePath → Bool
  pub read : World → FilePath → Option Body
  pub write : FilePath → Body → World → Bool × World
  pub no_bytes : Body
  pub b64decode : Text → Option Payload
  pub zip_members : Payload → Option (List (Text × Option Body))
  pub tar_members : Payload → Option (List (TarMember Body))

module _ {World FilePath Body Payload : Type 0} (files : Files World FilePath Body Payload) where
  abbrev pub Call : Type 0 → Type 0
  Call A = World → Result (UnpackError FilePath) A × World

  -- What comes next, unless something was raised.
  unfoldable pub go_on :
      {A B : Type 0}
      → Result (UnpackError FilePath) A × World
      → (A → Call B)
      → Result (UnpackError FilePath) B × World
  go_on (err e, w) rest = (err e, w)
  go_on (ok a, w) rest = rest a w

  abbrev pub decoded :
      RunnerFormat → Option Payload → Result (UnpackError FilePath) (Payload × RunnerFormat)
  decoded fmt none = err bad_base64
  decoded fmt (some payload) = ok (payload, fmt)

  -- "".join(line.strip() for line in payload_lines)
  abbrev pub joined : List Text → Text
  joined [] = []
  joined (line ∷ lines) = strip line ++ joined lines

  unfoldable pub decode_payload :
      RunnerFormat → List Text → Result (UnpackError FilePath) (Payload × RunnerFormat)
  decode_payload fmt lines = decoded fmt (files.b64decode (joined lines))

  abbrev pub first_block :
      Option (List Text)
      → Option (List Text)
      → Result (UnpackError FilePath) (Payload × RunnerFormat)
  first_block (some lines) other = decode_payload ps1 lines
  first_block none (some lines) = decode_payload sh lines
  first_block none none = err no_payload

  unfoldable pub extract_payload : Text → Result (UnpackError FilePath) (Payload × RunnerFormat)
  extract_payload text =
      let lines = splitlines text in
      first_block (slice_payload lines (λ s. text_eq s payload_open) (λ s. text_eq s payload_close))
        (slice_payload lines (λ s. ends_with (codes "<<'" ++ (sh_heredoc ++ codes "'")) s)
          (λ s. text_eq s sh_heredoc))

  module _ (target : FilePath) (force : Bool) where
    abbrev pub inside : FilePath → Bool
    inside path = is_some (files.parts_below path (files.resolve target))
      where
        is_some : Option (List Text) → Bool
        is_some none = false
        is_some (some parts) = true

    abbrev pub written_or_error :
        FilePath → Bool × World → Result (UnpackError FilePath) (Unit {0}) × World
    written_or_error path (true, w) = (ok tt, w)
    written_or_error path (false, w) = (err (cannot_write path), w)

    unfoldable pub write_member : Text → Body → Call (Unit {0})
    write_member name body w =
        let destination = files.resolve (files.child target name) in
        if not (inside destination)
        then (err (escapes name), w)
        else if files.exists w destination && not force
        then (err (already_exists destination), w)
        else written_or_error destination (files.write destination body w)

    abbrev pub with_body : Option Body → (Body → Call (List Text)) → Call (List Text)
    with_body none rest w = (err bad_archive, w)
    with_body (some body) rest w = rest body w

    abbrev pub also : Text → List Text → Call (List Text)
    also name written w = (ok (name ∷ written), w)

    unfoldable pub extract_zip : List (Text × Option Body) → Call (List Text)
    extract_zip [] w = (ok [], w)
    extract_zip ((name, body) ∷ members) w =
        let skipped = extract_zip members w in
        let restored =
          with_body body
            (λ bytes w1.
              go_on (write_member name bytes w1)
                (λ done w2. go_on (extract_zip members w2) (also name)))
            w in
        if text_eq name shim_module then skipped else restored

    abbrev pub or_no_bytes : Option (Option Body) → Option Body
    or_no_bytes none = none
    or_no_bytes (some none) = some files.no_bytes
    or_no_bytes (some (some body)) = some body

    unfoldable pub extract_tar : List (TarMember Body) → Call (List Text)
    extract_tar [] w = (ok [], w)
    extract_tar (member ∷ members) w =
        let skipped = extract_tar members w in
        let restored =
          with_body (or_no_bytes member.body)
            (λ bytes w1.
              go_on (write_member member.name bytes w1)
                (λ done w2. go_on (extract_tar members w2) (also member.name)))
            w in
        if not member.is_file || text_eq member.name shim_module then skipped else restored

    abbrev pub members_or_error :
        {M : Type 0} → Option (List M) → (List M → Call (List Text)) → Call (List Text)
    members_or_error none extract w = (err bad_archive, w)
    members_or_error (some members) extract w = extract members w

    abbrev pub extract : Payload × RunnerFormat → Call (List Text)
    extract (payload, ps1) = members_or_error (files.zip_members payload) extract_zip
    extract (payload, sh) = members_or_error (files.tar_members payload) extract_tar
    extract (payload, auto) = members_or_error (files.tar_members payload) extract_tar

    -- The names of the files that are restored from a runner's text.
    unfoldable pub unpack_text : Text → Call (List Text)
    unpack_text text w = go_on (extract_payload text, w) extract

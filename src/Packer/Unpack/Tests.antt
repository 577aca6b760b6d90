-- ===== src/Packer/Unpack/Tests.antt =====
-- A runner whose archive holds a file, the shim, and a file that would leave the target.
use pwshpy.Base.{
  ◌≡◌, ◌≢◌, refl, Bool, true, false, List, [], ◌∷◌, ◌++◌, Option, none, some, if◌then◌else◌,
  Bool-cases, inl, inr, err,
}
use pwshpy.Text.{Text, codes, text_eq, starts_with, ends_with, contains, strip}
use pwshpy.Text.Laws.{text_eq→eq}
use pwshpy.Text.Lines.{splitlines}
use pwshpy.Packing.Runner.{shim_module}
use pwshpy.Packer.Unpack.{
  Files, escapes, already_exists, no_payload, payload_open, payload_close, cut, slice_payload,
  decode_payload, extract_payload, go_on, write_member, extract_zip, unpack_text,
}
use pwshpy.Packer.Unpack.Spared.{KeepsOthers, Spares, unpack_text-Spares}

abbrev World : Type 0
World = List (Text × Text)

unfoldable lookup : World → Text → Option Text
lookup [] q = none
lookup ((p, body) ∷ w) q = if text_eq q p then some body else lookup w q

unfoldable held : World → Text → Bool
held [] q = false
held ((p, body) ∷ w) q = if text_eq q p then true else held w q

abbrev archive : List (Text × Option Text)
archive =
    (shim_module, some [])
    ∷ (codes "a.py", some (codes "new"))
    ∷ (codes "../b.py", some (codes "new"))
    ∷ []

-- A path with two dots in it resolves to another place.
abbrev in_memory : Files World Text Text (List (Text × Option Text))
in_memory = record {
  child = λ p name. p ++ (codes "/" ++ name);
  resolve = λ p. if contains (codes "/..") p then codes "/b.py" else p;
  parts_below = λ p root. if starts_with (root ++ codes "/") p then some (p ∷ []) else none;
  exists = held;
  read = lookup;
  write = λ p body w. (true, (p, body) ∷ w);
  no_bytes = [];
  b64decode = λ t. if text_eq t (codes "UEs=") then some archive else none;
  zip_members = λ payload. some payload;
  tar_members = λ payload. none;
}

lookup-other :
    (p : Text) (body : Text) (w : World) (q : Text) → q ≢ p → lookup ((p, body) ∷ w) q ≡ lookup w q
unfolding lookup
lookup-other p body w q h = elim (Bool-cases (text_eq q p)) [
  | inl e ↦ absurd (h (text_eq→eq q p e))
  | inr e ↦ rw e refl
]

held-kept :
    (p : Text) (body : Text) (w : World) (q : Text)
    → held w q ≡ true
    → held ((p, body) ∷ w) q ≡ true
unfolding held
held-kept p body w q h = elim (Bool-cases (text_eq q p)) [ inl e ↦ rw e refl | inr e ↦ rw e h ]

in_memory_keeps : KeepsOthers in_memory
in_memory_keeps = record { write_read = lookup-other; write_exists = held-kept }

abbrev runner : Text
runner = payload_open ++ 10 ∷ (codes " UEs= " ++ 10 ∷ (payload_close ++ 10 ∷ []))

-- The file is restored, the shim is not, and the file that would leave the target is refused.
refused :
    unpack_text in_memory (codes "/out") false runner []
    ≡ (err (escapes (codes "../b.py")), (codes "/out/a.py", codes "new") ∷ [])
unfolding unpack_text extract_payload slice_payload cut decode_payload go_on extract_zip
    write_member held lookup text_eq starts_with ends_with contains strip splitlines
refused = refl

kept :
    unpack_text in_memory (codes "/out") false runner ((codes "/out/a.py", codes "old") ∷ [])
    ≡ (err (already_exists (codes "/out/a.py")), (codes "/out/a.py", codes "old") ∷ [])
unfolding unpack_text extract_payload slice_payload cut decode_payload go_on extract_zip
    write_member held lookup text_eq starts_with ends_with contains strip splitlines
kept = refl

no_runner : unpack_text in_memory (codes "/out") true (codes "hello") [] ≡ (err no_payload, [])
unfolding unpack_text extract_payload slice_payload cut go_on text_eq ends_with strip splitlines
no_runner = refl

unpack_text-Spares_example :
    Spares in_memory in_memory_keeps
      (codes "/out")
      false
      ((codes "/b.py", codes "old") ∷ [])
      (unpack_text in_memory (codes "/out") false runner ((codes "/b.py", codes "old") ∷ [])).1
unpack_text-Spares_example =
    unpack_text-Spares in_memory in_memory_keeps (codes "/out") false runner
      ((codes "/b.py", codes "old") ∷ [])

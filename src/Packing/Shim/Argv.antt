-- ===== src/Packing/Shim/Argv.antt =====
-- The arguments that the shim reads.
use pwshpy.Base.{◌≡◌, refl, ap, ◌∙◌, List, [], ◌∷◌, ◌++◌, Option, none, some, All, ok}
use pwshpy.Text.{Text, codes, text_eq, join}
use pwshpy.Text.Laws.{Lacks}
use pwshpy.Text.Split.{split-join}
use pwshpy.Text.Span.{take_while, drop_while}
use pwshpy.Packing.Runner.{argv_env_var}
use pwshpy.Packing.Shim.Lookup.{get-without}
use pwshpy.Packing.Shim.{
  Environment, get, argv_encoding_tag, decode_pieces, argv_of, argv_from_environment,
}

-- A vector as it is handed over: the tag, and the piece of each argument, with a bar before each.
abbrev pub handed_over : List Text → Text
handed_over [] = argv_encoding_tag
handed_over (p ∷ pieces) = argv_encoding_tag ++ b'|' ∷ join (codes "|") (p ∷ pieces)

module _ (decode : Text → Option Text) where
  -- Each piece holds no bar and is decoded to its argument.
  abbrev pub AreEncoded : List Text → List Text → Type 0
  AreEncoded [] [] = Unit
  AreEncoded [] (a ∷ args) = ⊥
  AreEncoded (p ∷ pieces) [] = ⊥
  AreEncoded (p ∷ pieces) (a ∷ args) = (decode p ≡ some a) × Lacks b'|' p × AreEncoded pieces args

  decode_pieces-AreEncoded :
      (pieces args : List Text) → AreEncoded pieces args → decode_pieces decode pieces ≡ ok args
  unfolding decode_pieces
  decode_pieces-AreEncoded [] [] h = refl
  decode_pieces-AreEncoded [] (a ∷ args) h = absurd h
  decode_pieces-AreEncoded (p ∷ pieces) [] h = absurd h
  decode_pieces-AreEncoded (p ∷ pieces) (a ∷ args) (e, lacks, h) =
      rw (e, decode_pieces-AreEncoded pieces args h) refl

  encoded-Lacks : (pieces args : List Text) → AreEncoded pieces args → All (Lacks b'|') pieces
  encoded-Lacks [] args h = tt
  encoded-Lacks (p ∷ pieces) [] h = absurd h
  encoded-Lacks (p ∷ pieces) (a ∷ args) (e, lacks, h) = (lacks, encoded-Lacks pieces args h)

  argv_of-handed_over :
      (own pieces args : List Text)
      → AreEncoded pieces args
      → argv_of decode own (some (handed_over pieces)) ≡ ok args
  unfolding argv_of take_while drop_while text_eq decode_pieces
  argv_of-handed_over own [] [] h = refl
  argv_of-handed_over own [] (a ∷ args) h = absurd h
  argv_of-handed_over own (p ∷ pieces) args h =
      rw (split-join b'|' p pieces (encoded-Lacks (p ∷ pieces) args h))
        (decode_pieces-AreEncoded (p ∷ pieces) args h)

  -- If the variable holds a vector as it is handed over, the shim reads that vector, empty arguments
  -- and an empty vector included, and the variable is gone from the environment. Each piece of what
  -- is handed over is decoded to its argument, and has no bar in it.
  pub argv_from_environment-handed_over :
      (own pieces args : List Text) (env : Environment)
      → AreEncoded pieces args
      → get env argv_env_var ≡ some (handed_over pieces)
      → ((argv_from_environment decode own env).0 ≡ ok args)
        × (get (argv_from_environment decode own env).1 argv_env_var ≡ none)
  unfolding argv_from_environment
  argv_from_environment-handed_over own pieces args env encoded held = (
    ap (argv_of decode own) held ∙ argv_of-handed_over own pieces args encoded,
    get-without env argv_env_var,
  )

-- ===== src/Packing/Runner/Values.antt =====
-- What the shell reads back from the values of a POSIX runner.
use pwshpy.Base.{
  ◌≡◌, refl, sym, subst, List, [], ◌∷◌, ◌++◌, map, arith, some, All, All-append, ok, if◌then◌else◌,
}
use pwshpy.Text.{Text, codes, split, join, text_eq}
use pwshpy.Text.Laws.{Lacks}
use pwshpy.Text.Split.{split-join}
use pwshpy.Packing.PosixShell.Reader.{shell_words}
use pwshpy.Packing.PosixShell.RoundTrip.{shell_words-posix_shell_word, shell_words-posix_shell_args}
use pwshpy.Packing.Relative.{prefix_name}
use pwshpy.Packing.Relative.Anchored.{StandForWords, shell_words-posix_anchored_args}
use pwshpy.Packing.Substitute.Pieces.{
  Piece, value_of, template_of, filled, NamesLackAt, IsFillable, substitute-template_of,
}
use pwshpy.Packing.Runner.{
  FileDigest, RunnerContent, sh_placeholders, packed_names, posix_hashes, posix_values,
  render_posix_runner,
}
use pwshpy.Packing.Runner.Checks.{IsOneLine, HoldsAll, render_posix_runner-eq_ok}

-- A digest, two blanks and a path.
abbrev pub file_line : FileDigest → Text
file_line fh = fh.digest ++ (codes "  " ++ fh.path)

hashes_step :
    (files : List FileDigest) → posix_hashes files ≡ join (b'\n' ∷ []) (map file_line files)
unfolding posix_hashes
hashes_step files = refl

module _ (env : Text → Text) where
  -- The value of a name is read by the shell as one word.
  abbrev pub HoldsWord : List (Text × Text) → Text → Text → Type 0
  HoldsWord values name word =
      (value : Text) × (value_of values name ≡ some value)
      × (shell_words env value ≡ some (word ∷ []))

  -- The value of a name is read as one word, and that word again as a list of words.
  abbrev pub HoldsWords : List (Text × Text) → Text → List Text → Type 0
  HoldsWords values name words =
      (word : Text) × HoldsWord values name word × (shell_words env word ≡ some words)

  -- Reading the values of a POSIX runner gives the content back. As one word each: the entry, the
  -- list of files, which is a line for each file in order, of its digest, two blanks and its path,
  -- the request for an interpreter, and the git flag as `1` or `0`. As one word that is read again:
  -- the `uv` arguments as they are, and with a word for each of them where the caller's prefix stands
  -- in front of the relative location of each value of `--with` that has one.
  pub posix_values-HoldsWord :
      (content : RunnerContent)
      → HoldsWord (posix_values content) (codes "PWSHPY_ENTRY") content.entry
        × HoldsWord
            (posix_values content)
            (codes "PWSHPY_FILE_HASHES")
            (join (b'\n' ∷ []) (map file_line content.file_hashes))
        × HoldsWord (posix_values content) (codes "PWSHPY_PYTHON_REQUEST") content.python_request
        × HoldsWord
            (posix_values content)
            (codes "PWSHPY_GIT_SOURCE")
            (if content.has_git_source then codes "1" else codes "0")
        × HoldsWords (posix_values content) (codes "PWSHPY_UV_ARGS") content.uv_args
        × ((words : List Text) × HoldsWords
              (posix_values content)
              (codes "PWSHPY_UV_ARGS_ANCHORED")
              words
            × StandForWords (env prefix_name) content.uv_args words)
  unfolding posix_values text_eq
  posix_values-HoldsWord content =
      let (words, reads, stand) = shell_words-posix_anchored_args env content.uv_args in
      (
        (_, refl, shell_words-posix_shell_word env _),
        (_, refl, rw (← hashes_step) (shell_words-posix_shell_word env _)),
        (_, refl, shell_words-posix_shell_word env _),
        (_, refl, shell_words-posix_shell_word env _),
        (_, (_, refl, shell_words-posix_shell_word env _), shell_words-posix_shell_args env _),
        (words, (_, (_, refl, shell_words-posix_shell_word env _), reads), stand),
      )

file_lines-Lacks :
    (files : List FileDigest)
    → All (λ fh. Lacks b'\n' fh.digest) files
    → All IsOneLine (map (λ fh. fh.path) files)
    → All (Lacks b'\n') (map file_line files)
file_lines-Lacks [] ds ps = tt
file_lines-Lacks (fh ∷ files) (d, ds) ((lf, cr), ps) =
    (All-append _ fh.digest _ d (omega arith, (omega arith, lf)), file_lines-Lacks files ds ps)

posix_values-NamesLackAt : (content : RunnerContent) → NamesLackAt (posix_values content)
unfolding posix_values
posix_values-NamesLackAt content = omega arith

-- The file list of a runner that was rendered has one line for each file, in order, if there is a
-- file and no digest holds a line feed.
pub split-posix_hashes :
    (template : Text) (content : RunnerContent) (rendered : Text) (file : FileDigest)
    (files : List FileDigest)
    → render_posix_runner template content ≡ ok rendered
    → content.file_hashes ≡ file ∷ files
    → All (λ fh. Lacks b'\n' fh.digest) (file ∷ files)
    → split b'\n' (posix_hashes content.file_hashes) ≡ map file_line (file ∷ files)
split-posix_hashes template content rendered file files r e ds =
    let names = (((render_posix_runner-eq_ok template content rendered).0 r).0).1 in
    let paths : All IsOneLine (map (λ fh. fh.path) (file ∷ files)) =
      subst (λ fs. All IsOneLine (map (λ fh. fh.path) fs)) e names.1 in
    rw (e, hashes_step)
      (split-join b'\n' (file_line file) (map file_line files)
        (file_lines-Lacks (file ∷ files) ds paths))

-- A template of literal texts and placeholders that holds every placeholder is rendered, for names
-- with no line break, and every placeholder stands for its value and nothing else.
pub render_posix_runner-template_of :
    (ps : List Piece) (content : RunnerContent)
    → HoldsAll (template_of ps) sh_placeholders
    → IsFillable (posix_values content) ps
    → All IsOneLine (packed_names content)
    → render_posix_runner (template_of ps) content ≡ ok (filled (posix_values content) ps)
render_posix_runner-template_of ps content holds fits names =
    let filling =
      substitute-template_of (posix_values content) ps (posix_values-NamesLackAt content) fits in
    (render_posix_runner-eq_ok (template_of ps) content (filled (posix_values content) ps)).1
      ((holds, names), sym filling)

-- ===== src/Packing/Tests/Runner.antt =====
-- Templates and runners at concrete inputs.
use pwshpy.Base.{
  true, false, ◌≡◌, ◌↔◌, refl, List, [], ◌∷◌, map, arith, All, ok, err, if◌then◌else◌,
}
use pwshpy.Text.{Text, codes, text_eq, contains, starts_with, join}
use pwshpy.Packing.Relative.{prefix_name}
use pwshpy.Packing.Relative.Anchored.{StandForWords}
use pwshpy.Packing.Substitute.{substitute_from, match_token, substitute, replacements_of}
use pwshpy.Packing.Substitute.Pieces.{
  Piece, literal, placeholder, template_of, filled, IsFillable, substitute-template_of,
}
use pwshpy.Packing.Runner.{
  RunnerContent, line_break_in_name, placeholders, sh_placeholders, packed_names, posix_values,
  powershell_values, refuse_unrepresentable_names, missing, render_runner, render_posix_runner,
}
use pwshpy.Packing.Runner.Checks.{
  HoldsAll, IsOneLine, IsRenderable, render_runner-eq_ok, render_posix_runner-eq_ok,
}
use pwshpy.Packing.Runner.Values.{
  file_line, HoldsWord, HoldsWords, posix_values-HoldsWord, render_posix_runner-template_of,
}

-- A value that spells a placeholder is left as it is.
one_pass :
    substitute
      (codes "@@A@@ @@B@@")
      (replacements_of ((codes "A", codes "@@B@@") ∷ (codes "B", codes "b") ∷ []))
    ≡ codes "@@B@@ b"
unfolding substitute substitute_from match_token starts_with
one_pass = refl

abbrev two_values : List (Text × Text)
two_values = (codes "A", codes "@@B@@") ∷ (codes "B", codes "b") ∷ []

abbrev two_pieces : List Piece
two_pieces = placeholder (codes "A") ∷ literal (codes " a@b ") ∷ placeholder (codes "B") ∷ []

substitute-template_of_example :
    substitute (template_of two_pieces) (replacements_of two_values) ≡ filled two_values two_pieces
unfolding text_eq
substitute-template_of_example =
    substitute-template_of two_values two_pieces (omega arith)
      ((omega arith, λ e. cc), (omega arith, ((omega arith, λ e. cc), tt)))

abbrev content : RunnerContent
content = record {
  payload_b64 = codes "Ym9keQ==";
  payload_sha256 = codes "ab12";
  entry = codes "it's.py";
  uv_args = codes "--with" ∷ codes "./x.whl" ∷ [];
  file_hashes = record { digest = codes "ff"; path = codes "it's.py" } ∷ [];
  python_request = codes ">=3.11";
  has_git_source = true;
}

abbrev pieces : List Piece
pieces =
    placeholder (codes "PWSHPY_PAYLOAD_B64")
    ∷ placeholder (codes "PWSHPY_PAYLOAD_SHA256")
    ∷ placeholder (codes "PWSHPY_ENTRY")
    ∷ placeholder (codes "PWSHPY_UV_ARGS")
    ∷ placeholder (codes "PWSHPY_FILE_HASHES")
    ∷ placeholder (codes "PWSHPY_SHIM")
    ∷ placeholder (codes "PWSHPY_ARGV_ENV")
    ∷ placeholder (codes "PWSHPY_CWD_ENV")
    ∷ placeholder (codes "PWSHPY_PATH_ENV")
    ∷ placeholder (codes "PWSHPY_UV_PATH_ENV")
    ∷ placeholder (codes "PWSHPY_UV_ARGS_ANCHORED")
    ∷ placeholder (codes "PWSHPY_PYTHON_REQUEST")
    ∷ placeholder (codes "PWSHPY_GIT_SOURCE")
    ∷ placeholder (codes "PWSHPY_CALLER_ENV")
    ∷ []

holds_all : HoldsAll (template_of pieces) sh_placeholders
unfolding contains sh_placeholders
holds_all = (
  refl,
  (
    refl,
    (
      refl,
      (refl, (refl, (refl, (refl, (refl, (refl, (refl, (refl, (refl, (refl, (refl, tt))))))))))),
    ),
  ),
)

one_line : All IsOneLine (packed_names content)
one_line = omega arith

fits : IsFillable (posix_values content) pieces
unfolding posix_values text_eq
fits = (
  (omega arith, λ e. cc),
  (
    (omega arith, λ e. cc),
    (
      (omega arith, λ e. cc),
      (
        (omega arith, λ e. cc),
        (
          (omega arith, λ e. cc),
          (
            (omega arith, λ e. cc),
            (
              (omega arith, λ e. cc),
              (
                (omega arith, λ e. cc),
                (
                  (omega arith, λ e. cc),
                  (
                    (omega arith, λ e. cc),
                    (
                      (omega arith, λ e. cc),
                      (
                        (omega arith, λ e. cc),
                        ((omega arith, λ e. cc), ((omega arith, λ e. cc), tt)),
                      ),
                    ),
                  ),
                ),
              ),
            ),
          ),
        ),
      ),
    ),
  ),
)

render_posix_runner-template_of_example :
    render_posix_runner (template_of pieces) content ≡ ok (filled (posix_values content) pieces)
render_posix_runner-template_of_example =
    render_posix_runner-template_of pieces content holds_all fits one_line

abbrev empty_env : Text → Text
empty_env name = []

posix_values-HoldsWord_example :
    HoldsWord empty_env (posix_values content) (codes "PWSHPY_ENTRY") content.entry
    × HoldsWord empty_env
        (posix_values content)
        (codes "PWSHPY_FILE_HASHES")
        (join (b'\n' ∷ []) (map file_line content.file_hashes))
    × HoldsWord empty_env
        (posix_values content)
        (codes "PWSHPY_PYTHON_REQUEST")
        content.python_request
    × HoldsWord empty_env
        (posix_values content)
        (codes "PWSHPY_GIT_SOURCE")
        (if content.has_git_source then codes "1" else codes "0")
    × HoldsWords empty_env (posix_values content) (codes "PWSHPY_UV_ARGS") content.uv_args
    × ((words : List Text) × HoldsWords empty_env
          (posix_values content)
          (codes "PWSHPY_UV_ARGS_ANCHORED")
          words
        × StandForWords (empty_env prefix_name) content.uv_args words)
posix_values-HoldsWord_example = posix_values-HoldsWord empty_env content

render_posix_runner-eq_ok_example : render_posix_runner (codes "x") content ≡ ok (codes "x") ↔ (
    IsRenderable (codes "x") sh_placeholders content
    × (codes "x" ≡ substitute (codes "x") (replacements_of (posix_values content))))
render_posix_runner-eq_ok_example = render_posix_runner-eq_ok (codes "x") content (codes "x")

render_runner-eq_ok_example : render_runner (codes "x") content ≡ ok (codes "x") ↔ (
    IsRenderable (codes "x") placeholders content
    × (contains (codes "#>") content.entry ≡ false)
    × (codes "x" ≡ substitute (codes "x") (replacements_of (powershell_values content))))
render_runner-eq_ok_example = render_runner-eq_ok (codes "x") content (codes "x")

-- A name with a line break is refused.
refused :
    render_posix_runner (template_of pieces) (record content { entry = codes "a\nb.py" })
    ≡ err (line_break_in_name (codes "a\nb.py"))
unfolding render_posix_runner missing contains sh_placeholders refuse_unrepresentable_names
refused = refl

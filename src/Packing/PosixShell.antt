-- ===== src/Packing/PosixShell.antt =====
-- Quoting for the POSIX runner: `_posix_shell_word` and `_posix_shell_args` of
-- src/pwshpy/domain/packing.py.
pub mod Reader
pub mod RoundTrip
use pwshpy.Base.{List, [], ◌∷◌, ◌++◌, map}
use pwshpy.Text.{Text, codes, join, replace}

unfoldable pub posix_shell_word : Text → Text
unfolding replace
posix_shell_word value = b'\'' ∷ (replace b'\'' (codes "'\\''") value ++ b'\'' ∷ [])

unfoldable pub posix_shell_args : List Text → Text
unfolding posix_shell_word join
posix_shell_args values = join (codes " ") (map posix_shell_word values)

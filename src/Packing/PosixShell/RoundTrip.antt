-- ===== src/Packing/PosixShell/RoundTrip.antt =====
-- The shell reads back what the packer quotes.
use pwshpy.Base.{
  ℕ, ◌≡◌, refl, List, [], ◌∷◌, ◌++◌, append_assoc, append-nil, Option, none, some, arith, ◌==◌,
  ==_iff, if◌then◌else◌, Bool-cases, inl, inr, flat_map,
}
use pwshpy.Text.{Text, codes}
use pwshpy.Packing.PosixShell.{posix_shell_word, posix_shell_args}
use pwshpy.Packing.PosixShell.Reader.{bare, single, add, emit, words_from, shell_words}

abbrev quoted_char : ℕ → Text
quoted_char d = if d == b'\'' then codes "'\\''" else d ∷ []

pub args_one : (v : Text) → posix_shell_args (v ∷ []) ≡ posix_shell_word v
unfolding posix_shell_args
args_one v = refl

pub args_more :
    (v w : Text) (vs : List Text)
    → posix_shell_args (v ∷ w ∷ vs) ≡ posix_shell_word v ++ b' ' ∷ posix_shell_args (w ∷ vs)
unfolding posix_shell_args
args_more v w vs = refl

module _ (env : Text → Text) where
  single-quoted_char :
      (d : ℕ) (w s : Text)
      → words_from env single (some w) (quoted_char d ++ s)
        ≡ words_from env single (some (w ++ d ∷ [])) s
  unfolding words_from
  single-quoted_char d w s = elim (Bool-cases (d == b'\'')) [
    | inl quote ↦ rw (quote, (==_iff d _).0 quote, append-nil)
    | inr other ↦ ground arith
  ]

  single-replace :
      (v w s : Text)
      → words_from env single (some w) (flat_map quoted_char v ++ b'\'' ∷ s)
        ≡ words_from env bare (some (w ++ v)) s
  single-replace [] w s = rw append-nil (unfold words_from in refl)
  single-replace (d ∷ v) w s =
      rw (append_assoc, single-quoted_char, single-replace v (w ++ d ∷ []) s, append_assoc)

  pub bare-posix_shell_word :
      (v s : Text) (cur : Option Text)
      → words_from env bare cur (posix_shell_word v ++ s) ≡ words_from env bare (add cur v) s
  unfolding posix_shell_word words_from
  bare-posix_shell_word v s none = rw append_assoc (single-replace v [] s)
  bare-posix_shell_word v s (some w) = rw (append_assoc, append-nil) (single-replace v w s)

  pub bare-space :
      (w s : Text)
      → words_from env bare (some w) (b' ' ∷ s) ≡ emit (some w) (words_from env bare none s)
  unfolding words_from
  bare-space w s = refl

  bare_last-posix_shell_word :
      (v : Text) → words_from env bare none (posix_shell_word v) ≡ some (v ∷ [])
  bare_last-posix_shell_word v =
      rw (← append-nil (posix_shell_word v), bare-posix_shell_word v [] none)
        (unfold words_from in refl)

  bare-posix_shell_args :
      (v : Text) (vs : List Text)
      → words_from env bare none (posix_shell_args (v ∷ vs)) ≡ some (v ∷ vs)
  bare-posix_shell_args v [] = rw args_one (bare_last-posix_shell_word v)
  bare-posix_shell_args v (w ∷ vs) =
      rw (args_more, bare-posix_shell_word v _ none, bare-space, bare-posix_shell_args w vs)

-- A list written by `posix_shell_args` is read by the shell as exactly its values, whatever
-- characters they hold and whatever the environment.
pub shell_words-posix_shell_args :
    (env : Text → Text) (vs : List Text) → shell_words env (posix_shell_args vs) ≡ some vs
unfolding shell_words
shell_words-posix_shell_args env [] = unfold posix_shell_args in refl
shell_words-posix_shell_args env (v ∷ vs) = bare-posix_shell_args env v vs

-- One value quoted by `posix_shell_word` is one word.
pub shell_words-posix_shell_word :
    (env : Text → Text) (v : Text) → shell_words env (posix_shell_word v) ≡ some (v ∷ [])
shell_words-posix_shell_word env v = rw (← args_one v) (shell_words-posix_shell_args env (v ∷ []))

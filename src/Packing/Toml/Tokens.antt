-- ===== src/Packing/Toml/Tokens.antt =====
-- Lines of TOML that are composed of code, strings of one line and a comment.
use pwshpy.Base.{
  ℕ, ◌+◌, ◌-◌, ◌≡◌, ◌≢◌, refl, ap, ◌∙◌, false, ◌&&◌, List, [], ◌∷◌, ◌++◌, arith, ◌==◌, ==_iff, leb,
  if◌then◌else◌, length, All, min, Bool-cases, inl, inr,
}
use pwshpy.Text.{Text}
use pwshpy.Packing.Toml.{multi_line_delimiter, longest_closing_run, run_length, string_end_from}

pub data Quote : Type 0 where
  double : Quote
  single : Quote

abbrev pub mark : Quote → ℕ
mark double = b'"'
mark single = b'\''

-- The quotes of a string of several lines.
abbrev pub triple : Quote → Text
triple q = mark q ∷ mark q ∷ mark q ∷ []

-- What stands between the quotes: a character, or a backslash with the character behind it.
pub data Unescaped : Type 0 where
  character : ℕ → Unescaped
  escaped : ℕ → Unescaped

-- Between double quotes a backslash escapes, between single quotes nothing does.
abbrev pub MayStandIn : Quote → Unescaped → Type 0
MayStandIn double (character c) = (c ≢ b'"') × (c ≢ b'\\')
MayStandIn double (escaped c) = Unit
MayStandIn single (character c) = c ≢ b'\''
MayStandIn single (escaped c) = ⊥

pub data Token : Type 0 where
  code : ℕ → Token
  string : Quote → List Unescaped → Token

abbrev pub content_text : List Unescaped → Text
content_text [] = []
content_text (character c ∷ us) = c ∷ content_text us
content_text (escaped c ∷ us) = b'\\' ∷ c ∷ content_text us

abbrev pub token_text : Token → Text
token_text (code c) = c ∷ []
token_text (string q us) = mark q ∷ (content_text us ++ mark q ∷ [])

abbrev pub tokens_text : List Token → Text
tokens_text [] = []
tokens_text (t ∷ ts) = token_text t ++ tokens_text ts

-- Code is no quote and starts no comment. Behind an empty string there is not the same quote once
-- more, which would make the three open a string of several lines.
abbrev pub IsToken : Token → Text → Type 0
IsToken (code c) behind = (c ≢ b'#') × (c ≢ b'"') × (c ≢ b'\'')
IsToken (string q us) behind = All (MayStandIn q) us × (us ≡ [] → (s : Text) → behind ≢ mark q ∷ s)

abbrev pub AreTokens : List Token → Text → Type 0
AreTokens [] comment = Unit
AreTokens (t ∷ ts) comment = IsToken t (tokens_text ts ++ comment) × AreTokens ts comment

-- The places of the code, from the place where the tokens start.
abbrev pub code_places : ℕ → List Token → List ℕ
code_places i [] = []
code_places i (code c ∷ ts) = i ∷ code_places (i + 1) ts
code_places i (string q us ∷ ts) = code_places (i + length (token_text (string q us))) ts

module _ (m line_len : ℕ) (quote : Text) where
  end_step :
      (i c : ℕ) (s : Text)
      → string_end_from m quote line_len 0 i (c ∷ s) ≡ (
          let escape = m == b'"' && c == b'\\' in
          let run = run_length m (c ∷ s) in
          let rest =
            string_end_from m quote line_len
              (if escape then 1 else if c == m then run - 1 else 0)
              (i + 1)
              s in
          if escape
          then rest
          else if c == m
          then (if length quote == 1
              then (i + 1, [])
              else if leb multi_line_delimiter run
              then (i + min run longest_closing_run, [])
              else rest)
          else rest)
  end_step i c s = unfold string_end_from in refl

  end_skip :
      (i c : ℕ) (s : Text)
      → string_end_from m quote line_len 1 i (c ∷ s) ≡ string_end_from m quote line_len 0 (i + 1) s
  end_skip i c s = unfold string_end_from in refl

  end_other :
      (i c : ℕ) (s : Text)
      → (m == b'"' && c == b'\\') ≡ false
      → (c == m) ≡ false
      → string_end_from m quote line_len 0 i (c ∷ s) ≡ string_end_from m quote line_len 0 (i + 1) s
  end_other i c s e n = rw (end_step, e, n) refl

end_mark :
    (q : Quote) (line_len i : ℕ) (rest : Text)
    → string_end_from (mark q) (mark q ∷ []) line_len 0 i (mark q ∷ rest) ≡ (i + 1, [])
end_mark double line_len i rest = rw (end_step b'"' line_len (b'"' ∷ []) i b'"' rest) refl
end_mark single line_len i rest = rw (end_step b'\'' line_len (b'\'' ∷ []) i b'\'' rest) refl

-- Three of a quote, and not a fourth behind them.
run_three :
    (m : ℕ) (rest : Text) → ((s : Text) → rest ≢ m ∷ s) → run_length m (m ∷ m ∷ m ∷ rest) ≡ 3
unfolding run_length
run_three m [] h = ground arith
run_three m (d ∷ s) h = elim (Bool-cases (d == m)) [
  | inr other ↦ ground arith
  | inl same ↦ absurd (h s (ap (λ x. x ∷ s) ((==_iff d m).0 same)))
]

end_three :
    (q : Quote) (line_len i : ℕ) (rest : Text)
    → ((s : Text) → rest ≢ mark q ∷ s)
    → string_end_from (mark q) (triple q) line_len 0 i (triple q ++ rest) ≡ (i + 3, [])
end_three double line_len i rest h =
    rw (end_step b'"' line_len (triple double) i b'"' (b'"' ∷ b'"' ∷ rest), run_three b'"' rest h)
      refl
end_three single line_len i rest h =
    rw
      (
        end_step b'\'' line_len (triple single) i b'\'' (b'\'' ∷ b'\'' ∷ rest),
        run_three b'\'' rest h,
      )
      refl

content-cons :
    (u : Unescaped) (us : List Unescaped) (s : Text)
    → content_text (u ∷ us) ++ s ≡ content_text (u ∷ []) ++ (content_text us ++ s)
content-cons (character c) us s = refl
content-cons (escaped c) us s = refl

content-length :
    (u : Unescaped) (us : List Unescaped)
    → length (content_text (u ∷ us)) ≡ length (content_text (u ∷ [])) + length (content_text us)
content-length (character c) us = omega arith
content-length (escaped c) us = omega arith

module _ (line_len : ℕ) (quote : Text) where
  end_unit :
      (q : Quote) (u : Unescaped) (i : ℕ) (s : Text)
      → MayStandIn q u
      → string_end_from (mark q) quote line_len 0 i (content_text (u ∷ []) ++ s)
        ≡ string_end_from (mark q) quote line_len 0 (i + length (content_text (u ∷ []))) s
  end_unit double (character c) i s (n, b) =
      end_other b'"' line_len quote i c s (ground arith) (ground arith)
  end_unit double (escaped c) i s h =
      rw (end_step b'"' line_len quote i b'\\' (c ∷ s), end_skip b'"' line_len quote (i + 1) c s)
        (ap (λ k. string_end_from b'"' quote line_len 0 k s) (omega arith))
  end_unit single (character c) i s n = end_other b'\'' line_len quote i c s refl (ground arith)
  end_unit single (escaped c) i s h = absurd h

  -- What may stand in a string is passed.
  pub string_end_from-content :
      (q : Quote) (us : List Unescaped) (i : ℕ) (s : Text)
      → All (MayStandIn q) us
      → string_end_from (mark q) quote line_len 0 i (content_text us ++ s)
        ≡ string_end_from (mark q) quote line_len 0 (i + length (content_text us)) s
  string_end_from-content q [] i s h =
      ap (λ k. string_end_from (mark q) quote line_len 0 k s) (omega arith)
  string_end_from-content q (u ∷ us) i s (h, hs) =
      let next = i + length (content_text (u ∷ [])) in
      ap (string_end_from (mark q) quote line_len 0 i) (content-cons u us s)
      ∙ (end_unit q u i (content_text us ++ s) h
          ∙ (string_end_from-content q us next s hs
              ∙ ap (λ k. string_end_from (mark q) quote line_len 0 k s)
                  (omega (arith, content-length u us))))

-- A string of one line ends behind its closing quote.
pub string_end_from-closed :
    (q : Quote) (us : List Unescaped) (line_len i : ℕ) (rest : Text)
    → All (MayStandIn q) us
    → string_end_from (mark q) (mark q ∷ []) line_len 0 i (content_text us ++ mark q ∷ rest)
      ≡ (i + length (content_text us) + 1, [])
string_end_from-closed q us line_len i rest h =
    string_end_from-content line_len (mark q ∷ []) q us i (mark q ∷ rest) h
    ∙ end_mark q line_len (i + length (content_text us)) rest

-- A string of several lines ends behind three of its quote.
pub string_end_from-three :
    (q : Quote) (us : List Unescaped) (line_len i : ℕ) (rest : Text)
    → All (MayStandIn q) us
    → ((s : Text) → rest ≢ mark q ∷ s)
    → string_end_from (mark q) (triple q) line_len 0 i (content_text us ++ (triple q ++ rest))
      ≡ (i + length (content_text us) + 3, [])
string_end_from-three q us line_len i rest h apart =
    string_end_from-content line_len (triple q) q us i (triple q ++ rest) h
    ∙ end_three q line_len (i + length (content_text us)) rest apart

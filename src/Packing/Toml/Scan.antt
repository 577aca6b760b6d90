-- ===== src/Packing/Toml/Scan.antt =====
-- What a scan finds in a line that is composed of tokens.
use pwshpy.Base.{
  ℕ, zero, suc, ◌+◌, ◌-◌, ◌≤◌, ◌≡◌, ◌≢◌, refl, sym, ap, ◌∙◌, false, ◌||◌, List, [], ◌∷◌, ◌++◌,
  append_assoc, append-nil, arith, ◌==◌, ==_iff, Bool-cases, inl, inr, length, length-append,
  length-drop, drop, drop-append, All, ap₂,
}
use pwshpy.Text.{Text, starts_with}
use pwshpy.Packing.Toml.{TomlLineScan, string_end, delimiter, scan_from, scan_toml_characters}
use pwshpy.Packing.Toml.Tokens.{
  Quote, double, single, mark, Unescaped, character, escaped, MayStandIn, content_text, Token, code,
  string, token_text, tokens_text, IsToken, AreTokens, code_places, string_end_from-closed,
}

-- A comment, or nothing.
abbrev pub IsComment : Text → Type 0
IsComment [] = Unit
IsComment (c ∷ s) = c ≡ b'#'

drop-nil : (n : ℕ) → drop {A = ℕ} n [] ≡ []
drop-nil zero = refl
drop-nil (suc n) = refl

drop_add : (n m : ℕ) (t : Text) → drop (n + m) t ≡ drop m (drop n t)
drop_add zero m t = ap (λ k. drop k t) (omega arith)
drop_add (suc n) m [] = drop-nil (suc n + m) ∙ sym (drop-nil m)
drop_add (suc n) m (c ∷ t) =
    let next : suc n + m ≡ suc (n + m) = omega arith in
    ap (λ k. drop k (c ∷ t)) next ∙ drop_add n m t

-- The rest of the line behind some of it.
pub drop-more : (n : ℕ) (line a b : Text) → drop n line ≡ a ++ b → drop (n + length a) line ≡ b
drop-more n line a b h = drop_add n (length a) line ∙ (ap (drop (length a)) h ∙ drop-append a b)

one_quote : (m : ℕ) (s : Text) → starts_with (m ∷ m ∷ []) s ≡ false → delimiter m (m ∷ s) ≡ m ∷ []
unfolding delimiter starts_with
one_quote m s h = ground arith

not_again :
    (m : ℕ) (behind : Text)
    → ((s : Text) → behind ≢ m ∷ s)
    → starts_with (m ∷ m ∷ []) (m ∷ behind) ≡ false
unfolding starts_with
not_again m [] h = ground arith
not_again m (d ∷ s) h = elim (Bool-cases (m == d)) [
  | inr other ↦ ground arith
  | inl same ↦ absurd (h s (ap (λ x. x ∷ s) (sym ((==_iff m d).0 same))))
]

other_first : (m c : ℕ) (s : Text) → c ≢ m → starts_with (m ∷ m ∷ []) (c ∷ s) ≡ false
unfolding starts_with
other_first m c s h = ground arith

delimiter-string :
    (q : Quote) (us : List Unescaped) (behind : Text)
    → IsToken (string q us) behind
    → delimiter (mark q) (mark q ∷ (content_text us ++ mark q ∷ behind)) ≡ mark q ∷ []
delimiter-string q [] behind (h, apart) =
    one_quote (mark q) _ (not_again (mark q) behind (apart refl))
delimiter-string double (character c ∷ us) behind (((n, b), hs), apart) =
    one_quote b'"' _ (other_first b'"' c _ n)
delimiter-string double (escaped c ∷ us) behind h =
    one_quote b'"' _ (other_first b'"' b'\\' _ (omega arith))
delimiter-string single (character c ∷ us) behind ((n, hs), apart) =
    one_quote b'\'' _ (other_first b'\'' c _ n)
delimiter-string single (escaped c ∷ us) behind ((h, hs), apart) = absurd h

abbrev pub scanned : List ℕ → ℕ → TomlLineScan
scanned places comment = record { code = places; comment = comment; open_string = [] }

pub behind-lt :
    (n : ℕ) (line a b : Text) → drop n line ≡ a ++ b → n ≤ length line → n + length a ≤ length line
behind-lt n line a b e le = omega (arith, ap length e, length-drop n line, length-append a b)

module _ (line : Text) where
  scan_code :
      (index c : ℕ) (s : Text) (places : List ℕ)
      → IsToken (code c) s
      → scan_from line 0 index [] places (c ∷ s)
        ≡ scan_from line 0 (index + 1) [] (places ++ index ∷ []) s
  scan_code index c s places (hash, basic, literal) =
      let no_hash : (c == b'#') ≡ false = ground arith in
      let no_quote : (c == b'"' || c == b'\'') ≡ false = ground arith in
      unfold scan_from in rw (no_hash, no_quote) refl

  scan_end :
      (index : ℕ) (places : List ℕ)
      → scan_from line 0 index [] places []
        ≡ record { code = places; comment = length line; open_string = [] }
  scan_end index places = unfold scan_from in refl

  scan_comment :
      (index : ℕ) (comment : Text) (places : List ℕ)
      → IsComment comment
      → drop index line ≡ comment
      → index ≤ length line
      → scan_from line 0 index [] places comment
        ≡ record { code = places; comment = index; open_string = [] }
  scan_comment index [] places h e le =
      let at_end : length line ≡ index = omega (arith, ap length e, length-drop index line) in
      scan_end index places
      ∙ ap (λ k. record { code = places; comment = k; open_string = [] }) at_end
  scan_comment index (c ∷ s) places h e le = unfold scan_from in rw h refl

  scan_next :
      (n index c : ℕ) (quote s : Text) (places : List ℕ)
      → scan_from line (suc n) index quote places (c ∷ s)
        ≡ scan_from line n (index + 1) quote places s
  scan_next n index c quote s places = unfold scan_from in refl

  pub scan_skip :
      (index : ℕ) (quote t rest : Text) (places : List ℕ)
      → scan_from line (length t) index quote places (t ++ rest)
        ≡ scan_from line 0 (index + length t) quote places rest
  scan_skip index quote [] rest places =
      ap (λ k. scan_from line 0 k quote places rest) (omega arith)
  scan_skip index quote (c ∷ t) rest places =
      scan_next (length t) index c quote (t ++ rest) places
      ∙ (scan_skip (index + 1) quote t rest places
          ∙ ap (λ k. scan_from line 0 k quote places rest) (omega arith))

  scan_inside :
      (index q c : ℕ) (quote s : Text) (places : List ℕ)
      → scan_from line 0 index (q ∷ quote) places (c ∷ s)
        ≡ scan_from line
            ((string_end line index (q ∷ quote)).0 - index - 1)
            (index + 1)
            (string_end line index (q ∷ quote)).1
            places
            s
  scan_inside index q c quote s places = unfold scan_from in refl

  -- From inside a string the scan goes on where the string ends, or where the line does.
  pub scan_string :
      (index q : ℕ) (quote left t rest : Text) (places : List ℕ)
      → 1 ≤ length t
      → string_end line index (q ∷ quote) ≡ (index + length t, left)
      → scan_from line 0 index (q ∷ quote) places (t ++ rest)
        ≡ scan_from line 0 (index + length t) left places rest
  scan_string index q quote left [] rest places h e = absurd (omega arith)
  scan_string index q quote left (c ∷ t) rest places h e =
      let n : index + length (c ∷ t) - index - 1 ≡ length t = omega arith in
      scan_inside index q c quote (t ++ rest) places
      ∙ rw (e, n)
          (scan_skip (index + 1) left t rest places
            ∙ ap (λ k. scan_from line 0 k left places rest) (omega arith))

  scan_opens :
      (index : ℕ) (q : Quote) (s : Text) (places : List ℕ)
      → delimiter (mark q) (mark q ∷ s) ≡ mark q ∷ []
      → scan_from line 0 index [] places (mark q ∷ s)
        ≡ scan_from line 0 (index + 1) (mark q ∷ []) places s
  scan_opens index double s places e = unfold scan_from in rw e refl
  scan_opens index single s places e = unfold scan_from in rw e refl

  string_end-content :
      (index : ℕ) (q : Quote) (us : List Unescaped) (rest : Text)
      → All (MayStandIn q) us
      → drop index line ≡ content_text us ++ mark q ∷ rest
      → string_end line index (mark q ∷ []) ≡ (index + length (content_text us ++ mark q ∷ []), [])
  string_end-content index q us rest h e =
      unfold string_end in
      rw e (
        string_end_from-closed q us (length line) index rest h
        ∙ ap (λ k. (k, [])) (omega (arith, length-append (content_text us) (mark q ∷ []))))

  -- The scan goes on behind a string.
  scan_token :
      (index : ℕ) (q : Quote) (us : List Unescaped) (rest : Text) (places : List ℕ)
      → IsToken (string q us) rest
      → drop index line ≡ token_text (string q us) ++ rest
      → scan_from line 0 index [] places (token_text (string q us) ++ rest)
        ≡ scan_from line 0 (index + length (token_text (string q us))) [] places rest
  scan_token index q us rest places (h, apart) e =
      let body = content_text us ++ mark q ∷ [] in
      let parts = append_assoc (content_text us) (mark q ∷ []) rest in
      let inside = drop-more index line (mark q ∷ []) (body ++ rest) e in
      let some_text : 1 ≤ length body =
        omega (arith, length-append (content_text us) (mark q ∷ [])) in
      ap (λ z. scan_from line 0 index [] places (mark q ∷ z)) parts
      ∙ (scan_opens index q (content_text us ++ mark q ∷ rest) places
            (delimiter-string q us rest (h, apart))
          ∙ (ap (scan_from line 0 (index + 1) (mark q ∷ []) places) (sym parts)
              ∙ (scan_string (index + 1) (mark q) [] [] body rest places some_text
                    (string_end-content (index + 1) q us rest h (inside ∙ parts))
                  ∙ ap (λ k. scan_from line 0 k [] places rest) (omega arith))))

  -- The tokens from a place on.
  pub scan_tokens :
      (index : ℕ) (ts : List Token) (comment : Text) (places : List ℕ)
      → AreTokens ts comment
      → IsComment comment
      → drop index line ≡ tokens_text ts ++ comment
      → index ≤ length line
      → scan_from line 0 index [] places (tokens_text ts ++ comment)
        ≡ scanned (places ++ code_places index ts) (index + length (tokens_text ts))
  scan_tokens index [] comment places tokens h e le =
      scan_comment index comment places h e le ∙ ap₂ scanned (sym (append-nil places)) (omega arith)
  scan_tokens index (code c ∷ ts) comment places (t, tokens) h e le =
      let rest = tokens_text ts ++ comment in
      scan_code index c rest places t
      ∙ (scan_tokens (index + 1) ts comment (places ++ index ∷ []) tokens h
            (drop-more index line (c ∷ []) rest e) (behind-lt index line (c ∷ []) rest e le)
          ∙ ap₂ scanned (append_assoc places (index ∷ []) (code_places (index + 1) ts))
              (omega arith))
  scan_tokens index (string q us ∷ ts) comment places (t, tokens) h e le =
      let rest = tokens_text ts ++ comment in
      let text = token_text (string q us) in
      let parts = append_assoc text (tokens_text ts) comment in
      let here : drop index line ≡ text ++ rest = e ∙ parts in
      ap (scan_from line 0 index [] places) parts
      ∙ (scan_token index q us rest places t here
          ∙ (scan_tokens (index + length text) ts comment places tokens h
                (drop-more index line text rest here) (behind-lt index line text rest here le)
              ∙ ap₂ scanned refl (omega (arith, length-append text (tokens_text ts)))))

-- A line that is composed of code, strings of one line and a comment behind them, or none, is
-- scanned so: the code is the places of the code characters, none of those in a string, the comment
-- starts behind the last token, whatever characters the strings hold, and no string is left open.
-- A code character is no quote and no `#`; a string in double quotes holds escapes and other
-- characters than its quote and the backslash, one in single quotes other characters than its
-- quote; and behind an empty string there is not its quote once more.
pub scan_toml_characters-tokens_text :
    (ts : List Token) (comment : Text)
    → AreTokens ts comment
    → IsComment comment
    → scan_toml_characters (tokens_text ts ++ comment) []
      ≡ record { code = code_places 0 ts; comment = length (tokens_text ts); open_string = [] }
unfolding scan_toml_characters
scan_toml_characters-tokens_text ts comment tokens h =
    scan_tokens (tokens_text ts ++ comment) 0 ts comment [] tokens h refl (omega arith)
    ∙ ap₂ scanned refl (omega arith)

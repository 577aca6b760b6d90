-- ===== src/Packing/Toml/Open.antt =====
-- What a scan finds in a line that starts inside a string of several lines.
use pwshpy.Base.{
  ℕ, ◌+◌, ◌≡◌, ◌≢◌, refl, sym, ap, ap₂, ◌∙◌, List, [], ◌∷◌, ◌++◌, append_assoc, append-nil, arith,
  length, length-append, All,
}
use pwshpy.Text.{Text}
use pwshpy.Packing.Toml.{string_end, string_end_from, scan_from, scan_toml_characters}
use pwshpy.Packing.Toml.Tokens.{
  Quote, mark, triple, Unescaped, MayStandIn, content_text, Token, tokens_text, AreTokens,
  code_places, string_end_from-content, string_end_from-three,
}
use pwshpy.Packing.Toml.Scan.{IsComment, drop-more, behind-lt, scanned, scan_string, scan_tokens}

end_nil :
    (q : Quote) (line_len i : ℕ)
    → string_end_from (mark q) (triple q) line_len 0 i [] ≡ (line_len, triple q)
end_nil q line_len i = unfold string_end_from in refl

string_end-open :
    (q : Quote) (us : List Unescaped)
    → All (MayStandIn q) us
    → string_end (content_text us) 0 (triple q) ≡ (length (content_text us), triple q)
string_end-open q us h =
    let text = content_text us in
    let cut = string_end_from-content (length text) (triple q) q us 0 [] h in
    unfold string_end in
    ap (string_end_from (mark q) (triple q) (length text) 0 0) (sym (append-nil text))
    ∙ (cut ∙ end_nil q (length text) (0 + length text))

scan_nil :
    (q : Quote) (line : Text) (index : ℕ)
    → scan_from line 0 index (triple q) [] []
      ≡ record { code = []; comment = length line; open_string = triple q }
scan_nil q line index = unfold scan_from in refl

scan_open :
    (q : Quote) (line text : Text)
    → line ≡ text
    → string_end line 0 (triple q) ≡ (length line, triple q)
    → scan_from line 0 0 (triple q) [] text
      ≡ record { code = []; comment = length line; open_string = triple q }
scan_open q line [] same e = scan_nil q line 0
scan_open q line (c ∷ t) same e =
    let all : string_end line 0 (triple q) ≡ (0 + length (c ∷ t), triple q) =
      e ∙ ap (λ k. (k, triple q)) (omega (arith, ap length same)) in
    ap (scan_from line 0 0 (triple q) []) (sym (append-nil (c ∷ t)))
    ∙ (scan_string line 0 (mark q) (mark q ∷ mark q ∷ []) (triple q) (c ∷ t) [] [] (omega arith) all
        ∙ scan_nil q line (0 + length (c ∷ t)))

scan_closed :
    (q : Quote) (us : List Unescaped) (ts : List Token) (comment : Text)
    → All (MayStandIn q) us
    → AreTokens ts comment
    → IsComment comment
    → ((s : Text) → tokens_text ts ++ comment ≢ mark q ∷ s)
    → scan_toml_characters (content_text us ++ (triple q ++ (tokens_text ts ++ comment))) (triple q)
      ≡ scanned
          (code_places (length (content_text us) + 3) ts)
          (length (content_text us) + 3 + length (tokens_text ts))
scan_closed q us ts comment h tokens c apart =
    let rest = tokens_text ts ++ comment in
    let text = content_text us ++ triple q in
    let line = content_text us ++ (triple q ++ rest) in
    let parts : text ++ rest ≡ line = append_assoc (content_text us) (triple q) rest in
    let size : length text ≡ length (content_text us) + 3 =
      length-append (content_text us) (triple q) in
    let cut = string_end_from-three q us (length line) 0 rest h apart in
    let ends : string_end line 0 (triple q) ≡ (0 + length text, []) =
      unfold string_end in (cut ∙ ap (λ k. (k, [])) (omega (arith, size))) in
    unfold scan_toml_characters in
    ap (scan_from line 0 0 (triple q) []) (sym parts)
    ∙ (scan_string line 0 (mark q) (mark q ∷ mark q ∷ []) [] text rest [] (omega (arith, size)) ends
        ∙ (scan_tokens line (0 + length text) ts comment [] tokens c
              (drop-more 0 line text rest (sym parts))
              (behind-lt 0 line text rest (sym parts) (omega arith))
            ∙ ap₂ scanned (ap (λ k. code_places k ts) (omega (arith, size))) (omega (arith, size))))

-- A line that starts inside a string of several lines. If all of it may stand in the string and holds
-- the quote at most escaped, there is no code in it, no comment, and the string is still open at its
-- end. If three of the quote follow, not a fourth, and then tokens and a comment or none, the string
-- is closed, and the code and the comment are those of the tokens, whatever stood in the string.
pub scan_toml_characters-triple :
    (q : Quote) (us : List Unescaped) (ts : List Token) (comment : Text)
    → All (MayStandIn q) us
    → AreTokens ts comment
    → IsComment comment
    → ((s : Text) → tokens_text ts ++ comment ≢ mark q ∷ s)
    → (scan_toml_characters (content_text us) (triple q)
        ≡ record { code = []; comment = length (content_text us); open_string = triple q })
      × (scan_toml_characters
            (content_text us ++ (triple q ++ (tokens_text ts ++ comment)))
            (triple q)
          ≡ record {
            code = code_places (length (content_text us) + 3) ts;
            comment = length (content_text us) + 3 + length (tokens_text ts);
            open_string = [];
          })
scan_toml_characters-triple q us ts comment h tokens c apart = (
  unfold scan_toml_characters in
      scan_open q (content_text us) (content_text us) refl (string_end-open q us h),
  scan_closed q us ts comment h tokens c apart,
)

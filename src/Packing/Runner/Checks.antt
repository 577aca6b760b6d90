-- ===== src/Packing/Runner/Checks.antt =====
-- When a runner is rendered, and what it is then.
use pwshpy.Base.{
  ℕ, ◌≡◌, ◌↔◌, refl, ap, sym, true, false, ◌||◌, List, [], ◌∷◌, arith, Bool-cases, inl, inr, All,
  Result, ok, err, ◌>>◌, ||-false,
}
use pwshpy.Text.{Text, codes, contains, has_char}
use pwshpy.Text.Laws.{Lacks, has_char→Lacks}
use pwshpy.Packing.Substitute.{token_of, replacements_of, substitute}
use pwshpy.Packing.Runner.{
  RunnerContent, RenderError, comment_end_in_entry, placeholders, sh_placeholders, missing,
  packed_names, refuse_names, refuse_unrepresentable_names, refuse_missing, refuse_comment_end,
  powershell_values, posix_values, render_runner, render_posix_runner,
}

-- A template that holds the placeholder of every name.
abbrev pub HoldsAll : Text → List Text → Type 0
HoldsAll template = All (λ name. contains (token_of name) template ≡ true)

-- A name that a runner can spell.
abbrev pub IsOneLine : Text → Type 0
IsOneLine name = Lacks b'\n' name × Lacks b'\r' name

missing-eq_nil :
    (template : Text) (names : List Text) → missing template names ≡ [] ↔ HoldsAll template names
unfolding missing
missing-eq_nil template [] = (λ h. tt, λ h. refl)
missing-eq_nil template (name ∷ names) = elim (Bool-cases (contains (token_of name) template)) [
  | inl held ↦
      let ih = missing-eq_nil template names in rw held (λ e. (refl, ih.0 e), λ (_, h). ih.1 h)
  | inr lost ↦ rw lost (λ e. cc, λ (f, h). cc)
]

refuse_missing-eq_ok : (tokens : List Text) → refuse_missing tokens ≡ ok tt ↔ tokens ≡ []
refuse_missing-eq_ok [] = (λ h. refl, λ h. refl)
refuse_missing-eq_ok (t ∷ ts) = (λ h. cc, λ h. cc)

has_char-Lacks : (c : ℕ) (t : Text) → Lacks c t → has_char c t ≡ false
has_char-Lacks c [] h = refl
has_char-Lacks c (d ∷ t) h = ground (arith, has_char-Lacks c t)

refuse_names-eq_ok : (names : List Text) → refuse_names names ≡ ok tt ↔ All IsOneLine names
unfolding refuse_names
refuse_names-eq_ok [] = (λ h. tt, λ h. refl)
refuse_names-eq_ok (name ∷ names) =
    let ih = refuse_names-eq_ok names in
    elim (Bool-cases (has_char b'\n' name || has_char b'\r' name)) [
      | inl broken ↦ (
        λ e. absurd (cc (rw broken at e)),
        λ ((lf, cr), h).
            absurd
              (cc (broken, has_char-Lacks b'\n' name lf, has_char-Lacks b'\r' name cr, or_false)),
      )
      | inr whole ↦
          let (lf, cr) = ||-false (has_char b'\n' name) (has_char b'\r' name) whole in
          rw whole (
            λ e. ((has_char→Lacks b'\n' name lf, has_char→Lacks b'\r' name cr), ih.0 e),
            λ (_, h). ih.1 h,
          )
    ]
  where
    or_false : (false || false) ≡ false
    or_false = refl

-- The conditions under which a runner is rendered.
abbrev pub IsRenderable : Text → List Text → RunnerContent → Type 0
IsRenderable template names content = HoldsAll template names × All IsOneLine (packed_names content)

checks-eq_ok :
    (template : Text) (names : List Text) (content : RunnerContent)
    → ((refuse_missing (missing template names) ≡ ok tt)
        × (refuse_unrepresentable_names content ≡ ok tt))
      ↔ IsRenderable template names content
checks-eq_ok template names content =
    let present = refuse_missing-eq_ok (missing template names) in
    let held = missing-eq_nil template names in
    let lines = refuse_names-eq_ok (packed_names content) in
    (
      λ (m, n). (held.0 (present.0 m), lines.0 (unfold refuse_unrepresentable_names in n)),
      λ (h, l). (present.1 (held.1 h), unfold refuse_unrepresentable_names in lines.1 l),
    )

comment_end-eq_ok :
    (entry : Text) → refuse_comment_end entry ≡ ok tt ↔ contains (codes "#>") entry ≡ false
comment_end-eq_ok entry = elim (Bool-cases (contains (codes "#>") entry)) [
  | inl held ↦ (λ e. absurd (cc (e, closing held)), λ e. absurd (cc (held, e)))
  | inr free ↦ (λ e. free, λ e. open_end free)
]
  where
    closing :
        contains (codes "#>") entry ≡ true
        → refuse_comment_end entry ≡ err (comment_end_in_entry entry)
    closing h = unfold refuse_comment_end in rw h

    open_end : contains (codes "#>") entry ≡ false → refuse_comment_end entry ≡ ok tt
    open_end h = unfold refuse_comment_end in rw h

then-eq_ok :
    (m : Result RenderError (Unit {0})) (k : Result RenderError Text) (b : Text)
    → (m >> k) ≡ ok b ↔ ((m ≡ ok tt) × (k ≡ ok b))
then-eq_ok (ok u) k b = (λ e. (refl, e), λ (_, e). e)
then-eq_ok (err x) k b = (λ e. cc, λ (e, _). cc)

ok-injective : {a b : Text} → ◌≡◌ {A = Result RenderError Text} (ok a) (ok b) → a ≡ b
ok-injective e = cc

-- The POSIX runner is rendered exactly if the template holds every placeholder and no packed name
-- holds a line break; it is then the template filled with the values of the content.
pub render_posix_runner-eq_ok :
    (template : Text) (content : RunnerContent) (rendered : Text)
    → render_posix_runner template content ≡ ok rendered ↔ (
        IsRenderable template sh_placeholders content
        × (rendered ≡ substitute template (replacements_of (posix_values content))))
unfolding render_posix_runner
render_posix_runner-eq_ok template content rendered = (
  λ e.
      let (m, e1) =
        (then-eq_ok (refuse_missing (missing template sh_placeholders)) _ rendered).0 e in
      let (n, e2) = (then-eq_ok (refuse_unrepresentable_names content) _ rendered).0 e1 in
      (holds_names.0 (m, n), sym (ok-injective e2)),
  λ (c, same).
      let (m, n) = holds_names.1 c in
      (then-eq_ok (refuse_missing (missing template sh_placeholders)) _ rendered).1
        (m, (then-eq_ok (refuse_unrepresentable_names content) _ rendered).1 (n, ap ok (sym same))),
)
  where
    holds_names :
        ((refuse_missing (missing template sh_placeholders) ≡ ok tt)
          × (refuse_unrepresentable_names content ≡ ok tt))
        ↔ IsRenderable template sh_placeholders content
    holds_names = checks-eq_ok template sh_placeholders content

-- The PowerShell runner is rendered exactly if the template holds every placeholder, no packed name
-- holds a line break, and the entry does not hold the end of a block comment; it is then the
-- template filled with the values of the content.
pub render_runner-eq_ok :
    (template : Text) (content : RunnerContent) (rendered : Text)
    → render_runner template content ≡ ok rendered ↔ (
        IsRenderable template placeholders content
        × (contains (codes "#>") content.entry ≡ false)
        × (rendered ≡ substitute template (replacements_of (powershell_values content))))
unfolding render_runner
render_runner-eq_ok template content rendered = (
  λ e.
      let (m, e1) = (then-eq_ok (refuse_missing (missing template placeholders)) _ rendered).0 e in
      let (n, e2) = (then-eq_ok (refuse_unrepresentable_names content) _ rendered).0 e1 in
      let (c, e3) = (then-eq_ok (refuse_comment_end content.entry) _ rendered).0 e2 in
      (holds_names.0 (m, n), (comment_end-eq_ok content.entry).0 c, sym (ok-injective e3)),
  λ (c, closed, same).
      let (m, n) = holds_names.1 c in
      (then-eq_ok (refuse_missing (missing template placeholders)) _ rendered).1 (
        m,
        (then-eq_ok (refuse_unrepresentable_names content) _ rendered).1 (
          n,
          (then-eq_ok (refuse_comment_end content.entry) _ rendered).1
              ((comment_end-eq_ok content.entry).1 closed, ap ok (sym same)),
        ),
      ),
)
  where
    holds_names :
        ((refuse_missing (missing template placeholders) ≡ ok tt)
          × (refuse_unrepresentable_names content ≡ ok tt))
        ↔ IsRenderable template placeholders content
    holds_names = checks-eq_ok template placeholders content

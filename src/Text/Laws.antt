-- ===== src/Text/Laws.antt =====
-- What the operations on texts compute.
use pwshpy.Base.{
  ℕ, true, false, ◌≡◌, ◌≢◌, ◌↔◌, refl, ap, [], ◌∷◌, ◌++◌, arith, Bool-cases, inl, inr, length, drop,
  All,
}
use pwshpy.Text.{
  Text, text_eq, starts_with, contains, has_char, lstrip, rstrip, strip, cons_rstrip, is_space,
}

pub text_eq→eq : (s t : Text) → text_eq s t ≡ true → s ≡ t
unfolding text_eq
text_eq→eq [] [] h = refl
text_eq→eq [] (d ∷ t) h = cc
text_eq→eq (c ∷ s) [] h = cc
text_eq→eq (c ∷ s) (d ∷ t) h = ground (arith, text_eq→eq s t)

pub text_eq_refl : (s : Text) → text_eq s s ≡ true
unfolding text_eq
text_eq_refl [] = refl
text_eq_refl (c ∷ s) = ground (arith, text_eq_refl s)

pub text_eq_iff : (s t : Text) → (text_eq s t ≡ true) ↔ (s ≡ t)
text_eq_iff s t = (text_eq→eq s t, λ e. rw e (text_eq_refl t))

pub starts_with-append : (p t : Text) → starts_with p (p ++ t) ≡ true
unfolding starts_with
starts_with-append [] t = refl
starts_with-append (c ∷ p) t = ground (arith, starts_with-append p t)

pub starts_with→eq : (p t : Text) → starts_with p t ≡ true → t ≡ p ++ drop (length p) t
unfolding starts_with
starts_with→eq [] t h = refl
starts_with→eq (c ∷ p) [] h = cc
starts_with→eq (c ∷ p) (d ∷ t) h = ground (arith, starts_with→eq p t)

-- A text that holds another is that text between two others.
pub contains→eq : (n t : Text) → contains n t ≡ true → (a : Text) × (b : Text) × (t ≡ a ++ (n ++ b))
unfolding contains
contains→eq n [] h = ([], drop (length n) [], starts_with→eq n [] h)
contains→eq n (c ∷ t) h = elim (Bool-cases (starts_with n (c ∷ t))) [
  | inl here ↦ ([], drop (length n) (c ∷ t), starts_with→eq n (c ∷ t) here)
  | inr no_here ↦ let (a, b, e) = contains→eq n t (ground arith) in (c ∷ a, b, ap (λ s. c ∷ s) e)
]

pub contains-append : (n a b : Text) → contains n (a ++ (n ++ b)) ≡ true
unfolding contains
contains-append [] [] [] = unfold starts_with in refl
contains-append [] [] (d ∷ b) = unfold starts_with in refl
contains-append (c ∷ n) [] b = ground (arith, starts_with-append (c ∷ n) b)
contains-append n (d ∷ a) b = ground (arith, contains-append n a b)

abbrev pub Lacks : ℕ → Text → Type 0
Lacks b = All (λ c. c ≢ b)

pub has_char→Lacks : (b : ℕ) (t : Text) → has_char b t ≡ false → Lacks b t
has_char→Lacks b [] h = tt
has_char→Lacks b (c ∷ t) h = ground (arith, has_char→Lacks b t)

-- A character that is no space stays where it starts a text.
cons_rstrip-ne_space : (c : ℕ) (t : Text) → is_space c ≡ false → cons_rstrip c t ≡ c ∷ t
unfolding cons_rstrip
cons_rstrip-ne_space c [] h = rw h
cons_rstrip-ne_space c (d ∷ t) h = refl

pub rstrip-ne_space : (c : ℕ) (s : Text) → is_space c ≡ false → rstrip (c ∷ s) ≡ c ∷ rstrip s
rstrip-ne_space c s h = unfold rstrip in cons_rstrip-ne_space c (rstrip s) h

pub lstrip-ne_space : (c : ℕ) (s : Text) → is_space c ≡ false → lstrip (c ∷ s) ≡ c ∷ s
unfolding lstrip
lstrip-ne_space c s h = rw h

pub strip-ne_space : (c : ℕ) (s : Text) → is_space c ≡ false → strip (c ∷ s) ≡ c ∷ rstrip s
strip-ne_space c s h = unfold strip in rw (lstrip-ne_space c s h) (rstrip-ne_space c s h)

-- What holds of every character holds of those that stripping leaves.
module _ {ℓ} (P : ℕ → Type ℓ) where
  lstrip-All : (s : Text) → All P s → All P (lstrip s)
  unfolding lstrip
  lstrip-All [] h = tt
  lstrip-All (c ∷ s) (hc, h) = elim (Bool-cases (is_space c)) [
    | inl space ↦ rw space (lstrip-All s h)
    | inr no_space ↦ rw no_space (hc, h)
  ]

  cons_rstrip-All : (c : ℕ) (s : Text) → P c → All P s → All P (cons_rstrip c s)
  unfolding cons_rstrip
  cons_rstrip-All c [] hc h = elim (Bool-cases (is_space c)) [
    | inl space ↦ rw space tt
    | inr no_space ↦ rw no_space (hc, tt)
  ]
  cons_rstrip-All c (d ∷ s) hc h = (hc, h)

  pub rstrip-All : (s : Text) → All P s → All P (rstrip s)
  unfolding rstrip
  rstrip-All [] h = tt
  rstrip-All (c ∷ s) (hc, h) = cons_rstrip-All c (rstrip s) hc (rstrip-All s h)

  pub strip-All : (s : Text) → All P s → All P (strip s)
  unfolding strip
  strip-All s h = rstrip-All (lstrip s) (lstrip-All s h)

-- ===== src/Base/Results.antt =====
-- Calls that return or raise.
use mathlib.Core.Path.{◌≡◌, refl}

-- A call that returns or raises. `E` is the data of the exceptions that it may raise.
pub data Result {ℓ κ} (E : Type κ) (A : Type ℓ) : Type (ℓ ⊔ κ) where
  ok : A → Result E A
  err : E → Result E A

module _ {κ} {E : Type κ} where
  infixl 5 ◌>>=◌ ◌>>◌
  -- The rest of the code, unless an exception was raised.
  abbrev pub ◌>>=◌ {ℓ ℓ'} :
      {Value : Type ℓ} {Next : Type ℓ'} → Result E Value → (Value → Result E Next) → Result E Next
  err raised >>= rest = err raised
  ok value >>= rest = rest value

  -- The rest of the code behind a check that returns nothing.
  abbrev pub ◌>>◌ {ℓ} : {Next : Type ℓ} → Result E (Unit {0}) → Result E Next → Result E Next
  err raised >> rest = err raised
  ok checked >> rest = rest

-- What was returned by the first of two steps that both returned.
pub first_step :
    {E A B : Type 0} (m : Result E A) (rest : A → Result E B) {b : B}
    → (m >>= rest) ≡ ok b
    → (a : A) × (m ≡ ok a) × (rest a ≡ ok b)
first_step (err e) rest h = absurd (cc)
first_step (ok a) rest h = (a, refl, h)

pub first_check :
    {E B : Type 0} (m : Result E (Unit {0})) (rest : Result E B) {b : B}
    → (m >> rest) ≡ ok b
    → (m ≡ ok tt) × (rest ≡ ok b)
first_check (err e) rest h = absurd (cc)
first_check (ok u) rest h = (refl, h)

-- What a call returned is determined.
pub ok-injective : {E A : Type 0} {a b : A} (r : Result E A) → r ≡ ok a → r ≡ ok b → a ≡ b
ok-injective r h k = cc

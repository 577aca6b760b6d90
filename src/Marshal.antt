-- ===== src/Marshal.antt =====
-- Translating what native calls report: the tables of src/pwshpy/adapters/native/marshal.py.
pub mod Services
pub mod Registry
pub mod Tasks
pub mod Processes
pub mod RoundTrip
pub mod Numbers
mod Tests
use pwshpy.Base.{ℕ, ◌/◌, ◌%◌, Bool, List, [], ◌∷◌, Option, none, some, ◌==◌, leb, if◌then◌else◌}
use pwshpy.Text.{Text, text_eq}

-- `key` where the flag says so, unless a later key was found.
abbrev pub this_or_later : Option ℕ → Bool → ℕ → Option ℕ
this_or_later (some k) here key = some k
this_or_later none here key = if here then some key else none

module _ {ℓ} {A : Type ℓ} where
  -- `table.get(id)`
  unfoldable pub entry : List (ℕ × A) → ℕ → Option A
  entry [] id = none
  entry ((key, a) ∷ table) id = let later = entry table id in if key == id then some a else later

  abbrev pub or_default : Option A → A → A
  or_default none default = default
  or_default (some a) default = a

  -- `table.get(id, default)`
  abbrev pub entry_or : List (ℕ × A) → A → ℕ → A
  entry_or table default id = or_default (entry table id) default

  -- The subscript of `{v: k for k, v in table.items()}` with a member of an enumeration: the last key
  -- wins, and a member that is missing is a `KeyError`.
  unfoldable pub key_of : (A → Text) → List (ℕ × A) → A → Option ℕ
  key_of value [] member = none
  key_of value ((key, a) ∷ table) member =
      this_or_later (key_of value table member) (text_eq (value a) (value member)) key

  -- The first entry whose bit is set, for bits that are powers of two.
  unfoldable pub first_bit : List (ℕ × A) → ℕ → A → A
  first_bit [] flags default = default
  first_bit ((bit, a) ∷ bits) flags default =
      let later = first_bit bits flags default in if flags / bit % 2 == 1 then a else later

  -- The first entry whose floor is not above the number.
  unfoldable pub first_floor : List (ℕ × A) → ℕ → A → A
  first_floor [] n default = default
  first_floor ((floor, a) ∷ bands) n default =
      let later = first_floor bands n default in if leb floor n then a else later

-- ===== src/Surrogates/Tests.antt =====
-- A key with a byte that is not valid UTF-8, and a valid key with the name that it would take.
use pwshpy.Base.{ℕ, ◌≡◌, refl, true, false, List, [], ◌∷◌, some, All, In}
use pwshpy.Text.{Text, text_eq, mem_text}
use pwshpy.Surrogates.Decimal.{decimal}
use pwshpy.Surrogates.Names.{names, originals, IsDistinct}
use pwshpy.Surrogates.{
  Key, text_key, other_key, replacement, text_has_surrogate, has_surrogate, replace_surrogates,
  suffixed, free_from, free_name, valid_keys, set_name, rename, repaired_key_names,
}
use pwshpy.Surrogates.Repaired.{IsOwn, repaired_key_names-IsDistinct}

abbrev broken : Text
broken = b'a' ∷ 0xDCFF ∷ []

abbrev broken_too : Text
broken_too = b'a' ∷ 0xDCFE ∷ []

abbrev mended : Text
mended = b'a' ∷ replacement ∷ []

abbrev keys : List (Key ℕ)
keys = text_key broken ∷ text_key broken_too ∷ text_key mended ∷ other_key 7 ∷ []

repaired :
    repaired_key_names keys
    ≡ some (
        (broken, b'a' ∷ replacement ∷ b'~' ∷ b'2' ∷ [])
        ∷ (broken_too, b'a' ∷ replacement ∷ b'~' ∷ b'3' ∷ [])
        ∷ [])
unfolding repaired_key_names rename free_name free_from suffixed decimal replace_surrogates mem_text
    text_eq text_has_surrogate valid_keys set_name
repaired = refl

number_is_no_text : has_surrogate {Other = ℕ} (other_key 7) ≡ false
unfolding has_surrogate
number_is_no_text = refl

repaired_key_names-IsDistinct_example :
    (renamed : List (Text × Text)) × (repaired_key_names keys ≡ some renamed)
    × IsDistinct (names renamed)
    × All (IsOwn (valid_keys keys)) (names renamed)
    × ((t : Text) → In (text_key t) keys → text_has_surrogate t ≡ true → In t (originals renamed))
repaired_key_names-IsDistinct_example = repaired_key_names-IsDistinct keys

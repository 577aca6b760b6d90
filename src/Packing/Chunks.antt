-- ===== src/Packing/Chunks.antt =====
-- Wrapping a blob into lines: `chunk_base64` of src/pwshpy/domain/packing.py.
pub mod Lines
use pwshpy.Base.{
  ℕ, zero, suc, ◌+◌, ◌-◌, ◌≤◌, ◌<◌, ◌≡◌, ◌≢◌, refl, ap, sym, List, [], ◌∷◌, ◌++◌, arith, ◌==◌, ltb,
  if◌then◌else◌, Bool-cases, inl, inr, length, take, drop, take-append-drop, length-take,
  length-drop, All, Result, ok, err,
}
use pwshpy.Text.{Text, codes, join}

pub data ChunkError : Type 0 where
  width_not_positive : ℕ → ChunkError

-- `[blob[index : index + width] for index in range(0, len(blob), width)]`, of what is left of the
-- blob: the first chunk is cut off, for as many rounds as the fuel says.
unfoldable pub chunks : ℕ → ℕ → Text → List Text
chunks zero width blob = []
chunks (suc fuel) width [] = []
chunks (suc fuel) width (c ∷ s) = take width (c ∷ s) ∷ chunks fuel width (drop width (c ∷ s))

-- A blob has no more chunks than characters.
unfoldable pub chunk_base64 : Text → ℕ → Result ChunkError Text
chunk_base64 blob width =
    if ltb width 1
    then err (width_not_positive width)
    else ok (join (codes "\n") (chunks (length blob) width blob))

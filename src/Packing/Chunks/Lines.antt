-- ===== src/Packing/Chunks/Lines.antt =====
-- The lines of a wrapped blob.
use pwshpy.Base.{
  ge→ltb, ℕ, zero, suc, ◌≤◌, ◌<◌, ◌≡◌, refl, ap, ◌∙◌, List, [], ◌∷◌, ◌++◌, arith, length, take,
  drop, take-append-drop, length-take, length-drop, All, ok,
}
use pwshpy.Text.{Text, codes, join, split}
use pwshpy.Text.Laws.{Lacks}
use pwshpy.Text.Split.{split-join}
use pwshpy.Packing.Chunks.{chunks, chunk_base64}

-- The texts one behind another.
abbrev pub flat : List Text → Text
flat [] = []
flat (p ∷ ps) = p ++ flat ps

abbrev FitsIn : ℕ → Text → Type 0
FitsIn width p = length p ≤ width

chunks_step :
    (fuel width c : ℕ) (s : Text)
    → chunks (suc fuel) width (c ∷ s) ≡ take width (c ∷ s) ∷ chunks fuel width (drop width (c ∷ s))
chunks_step fuel width c s = unfold chunks in refl

chunks-nil : (fuel width : ℕ) → chunks fuel width [] ≡ []
chunks-nil zero width = unfold chunks in refl
chunks-nil (suc fuel) width = unfold chunks in refl

flat-chunks :
    (fuel width : ℕ) (blob : Text)
    → 0 < width
    → length blob ≤ fuel
    → flat (chunks fuel width blob) ≡ blob
flat-chunks fuel width [] pos fits = ap flat (chunks-nil fuel width)
flat-chunks zero width (c ∷ s) pos fits = absurd (omega arith)
flat-chunks (suc fuel) width (c ∷ s) pos fits =
    let rest = drop width (c ∷ s) in
    let shorter : length rest ≤ fuel = omega (arith, length-drop width (c ∷ s)) in
    ap flat (chunks_step fuel width c s)
    ∙ ap (λ t. take width (c ∷ s) ++ t) (flat-chunks fuel width rest pos shorter)
    ∙ take-append-drop width (c ∷ s)

chunks-FitsIn : (fuel width : ℕ) (blob : Text) → All (FitsIn width) (chunks fuel width blob)
chunks-FitsIn fuel width [] = rw chunks-nil tt
chunks-FitsIn zero width (c ∷ s) = unfold chunks in tt
chunks-FitsIn (suc fuel) width (c ∷ s) =
    rw chunks_step
      (omega (arith, length-take width (c ∷ s)), chunks-FitsIn fuel width (drop width (c ∷ s)))

take-Lacks : (b n : ℕ) (t : Text) → Lacks b t → Lacks b (take n t)
take-Lacks b zero t h = tt
take-Lacks b (suc n) [] h = tt
take-Lacks b (suc n) (c ∷ t) h = (h.0, take-Lacks b n t h.1)

drop-Lacks : (b n : ℕ) (t : Text) → Lacks b t → Lacks b (drop n t)
drop-Lacks b zero t h = h
drop-Lacks b (suc n) [] h = tt
drop-Lacks b (suc n) (c ∷ t) h = drop-Lacks b n t h.1

chunks-Lacks :
    (b fuel width : ℕ) (blob : Text) → Lacks b blob → All (Lacks b) (chunks fuel width blob)
chunks-Lacks b fuel width [] h = rw chunks-nil tt
chunks-Lacks b zero width (c ∷ s) h = unfold chunks in tt
chunks-Lacks b (suc fuel) width (c ∷ s) h = rw chunks_step (
  take-Lacks b width (c ∷ s) h,
  chunks-Lacks b fuel width (drop width (c ∷ s)) (drop-Lacks b width (c ∷ s) h),
)

split-join-chunks :
    (width : ℕ) (c : ℕ) (s : Text)
    → Lacks b'\n' (c ∷ s)
    → split b'\n' (join (codes "\n") (chunks (length (c ∷ s)) width (c ∷ s)))
      ≡ chunks (length (c ∷ s)) width (c ∷ s)
split-join-chunks width c s h = rw chunks_step (
    split-join b'\n' (take width (c ∷ s)) (chunks (length s) width (drop width (c ∷ s)))
      (rw chunks_step at (chunks-Lacks b'\n' (suc (length s)) width (c ∷ s) h)))

accepted :
    (blob : Text) (width : ℕ)
    → 0 < width
    → chunk_base64 blob width ≡ ok (join (codes "\n") (chunks (length blob) width blob))
unfolding chunk_base64
accepted blob width pos = rw (ge→ltb width 1 pos)

nothing : join (codes "\n") [] ≡ []
nothing = unfold join in refl

-- For a positive width a blob with no line feed is wrapped into lines of at most that width, and
-- the lines one behind another are the blob.
pub chunk_base64-eq_ok :
    (blob : Text) (width : ℕ)
    → 0 < width
    → Lacks b'\n' blob
    → (wrapped : Text) × (chunk_base64 blob width ≡ ok wrapped)
      × (flat (split b'\n' wrapped) ≡ blob)
      × All (λ line. length line ≤ width) (split b'\n' wrapped)
chunk_base64-eq_ok [] width pos h = (
  [],
  accepted [] width pos ∙ ap ok (ap (join (codes "\n")) (chunks-nil 0 width) ∙ nothing),
  unfold split in refl,
  unfold split in (omega arith, tt),
)
chunk_base64-eq_ok (c ∷ s) width pos h =
    let lines = chunks (length (c ∷ s)) width (c ∷ s) in
    (
      join (codes "\n") lines,
      accepted (c ∷ s) width pos,
      ap flat (split-join-chunks width c s h)
          ∙ flat-chunks (suc (length s)) width (c ∷ s) pos (omega arith),
      rw (split-join-chunks width c s h) (chunks-FitsIn (suc (length s)) width (c ∷ s)),
    )

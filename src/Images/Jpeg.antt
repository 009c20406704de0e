-- ===== src/Images/Jpeg.antt =====
-- `stripJpeg` of src/backend/lib/strip-image-metadata.ts: the marker segments of a JPEG. A byte is
-- a number below 256.
use mathlib.Core.Option
use yurucommu_core.Base.{
  ℕ, zero, suc, ◌+◌, ◌*◌, ◌≤◌, ◌<◌, ◌≡◌, Bool, false, not, ◌||◌, ◌&&◌, Option, none, List, [], ◌∷◌,
  ◌++◌, if◌then◌else◌, ltb, ◌==◌, between, length-append, length-take, length, take, arith,
}
use yurucommu_core.Images.Chunks.{Head, malformed, tail, chunk, walk, IsFormat}

-- The markers that carry no length.
unfoldable pub is_standalone : ℕ → Bool
is_standalone marker = marker == 216 || marker == 217 || marker == 1 || between 208 215 marker

-- A segment with a length, which includes its own two bytes.
unfoldable pub segment : List ℕ → ℕ → Head
segment (hi ∷ lo ∷ payload) size =
    let len = hi * 256 + lo in
    if ltb len 2 || ltb size (2 + len) then malformed else chunk (2 + len)
segment _ size = malformed

unfoldable pub jpeg_head : List ℕ → Head
jpeg_head (b ∷ marker ∷ rest) =
    if not (b == 255)
    then malformed
    else if marker == 218
    then tail
    else if is_standalone marker
    then chunk 2
    else segment rest (2 + length rest)
jpeg_head _ = malformed

-- APP1 (EXIF and XMP), APP13 (IPTC) and COM
unfoldable pub is_jpeg_metadata : List ℕ → Bool
is_jpeg_metadata (b ∷ marker ∷ rest) =
    not (is_standalone marker) && (marker == 225 || marker == 237 || marker == 254)
is_jpeg_metadata _ = false

unfoldable pub strip_jpeg : List ℕ → Option (List ℕ)
strip_jpeg (x ∷ y ∷ a ∷ b ∷ rest) =
    if x == 255 && y == 216
    then Option.map (λ out. 255 ∷ 216 ∷ out)
        (walk jpeg_head is_jpeg_metadata (suc (length (a ∷ b ∷ rest))) (a ∷ b ∷ rest))
    else none
strip_jpeg _ = none

jpeg_positive : (rest : List ℕ) (n : ℕ) → jpeg_head rest ≡ chunk n → 0 < n
unfolding jpeg_head segment
jpeg_positive [] n h = cc
jpeg_positive (b ∷ []) n h = cc
jpeg_positive (b ∷ m ∷ []) n h = ground arith
jpeg_positive (b ∷ m ∷ hi ∷ []) n h = ground arith
jpeg_positive (b ∷ m ∷ hi ∷ lo ∷ r) n h = ground arith

jpeg_inside : (rest : List ℕ) (n : ℕ) → jpeg_head rest ≡ chunk n → n ≤ length rest
unfolding jpeg_head segment
jpeg_inside [] n h = cc
jpeg_inside (b ∷ []) n h = cc
jpeg_inside (b ∷ m ∷ []) n h = ground arith
jpeg_inside (b ∷ m ∷ hi ∷ []) n h = ground arith
jpeg_inside (b ∷ m ∷ hi ∷ lo ∷ r) n h = ground arith

jpeg_local :
    (rest more : List ℕ) (n : ℕ)
    → jpeg_head rest ≡ chunk n
    → jpeg_head (take n rest ++ more) ≡ chunk n
unfolding jpeg_head segment
jpeg_local [] more n h = cc
jpeg_local (b ∷ []) more n h = cc
jpeg_local (b ∷ m ∷ r) more zero h =
    let k = jpeg_positive (b ∷ m ∷ r) zero h in absurd (omega (arith, k))
jpeg_local (b ∷ m ∷ []) more (suc zero) h = ground arith
jpeg_local (b ∷ m ∷ hi ∷ []) more (suc zero) h = ground arith
jpeg_local (b ∷ m ∷ hi ∷ lo ∷ r) more (suc zero) h = ground arith
jpeg_local (b ∷ m ∷ []) more (suc (suc n)) h = ground arith
jpeg_local (b ∷ m ∷ hi ∷ []) more (suc (suc zero)) h = ground arith
jpeg_local (b ∷ m ∷ hi ∷ []) more (suc (suc (suc n))) h = ground arith
jpeg_local (b ∷ m ∷ hi ∷ lo ∷ r) more (suc (suc zero)) h = ground arith
jpeg_local (b ∷ m ∷ hi ∷ lo ∷ r) more (suc (suc (suc zero))) h = ground arith
jpeg_local (b ∷ m ∷ hi ∷ lo ∷ r) more (suc (suc (suc (suc k)))) h =
    ground (arith, length-append (take k r) more, length-take k r)

pub jpeg-IsFormat : IsFormat jpeg_head
jpeg-IsFormat = record { positive = jpeg_positive; inside = jpeg_inside; local_ = jpeg_local }

-- ===== src/Images/Strip.antt =====
-- `stripImageMetadata` of src/backend/lib/strip-image-metadata.ts, and what is left of an image.
use mathlib.Core.Option.{some-injective}
use yurucommu_core.Base.{
  ℕ, suc, ◌≡◌, refl, Bool, true, ◌&&◌, Option, some, List, [], ◌∷◌, ◌++◌, if◌then◌else◌, false,
  ◌||◌, subst, Option-cases, Bool-cases, inl, inr, length, take, drop, js, JsString, str_eq, arith,
  starts_with, ◌==◌, sym,
}
use yurucommu_core.Images.Chunks.{Head, walk}
use yurucommu_core.Images.Chunks.Reparse.{IsStripped, walk-IsStripped}
use yurucommu_core.Images.Jpeg.{
  strip_jpeg, jpeg_head, is_jpeg_metadata, is_standalone, jpeg-IsFormat,
}
use yurucommu_core.Images.Png.{
  strip_png, png_head, is_png_metadata, png-IsFormat, png_signature, contains_png_chunk,
}
use yurucommu_core.Images.Webp.{strip_webp}

-- `none` is a thrown error.
unfoldable pub strip_image_metadata : List ℕ → JsString → Option (List ℕ)
strip_image_metadata bytes mime_type =
    if str_eq mime_type (js "image/jpeg")
    then strip_jpeg bytes
    else if str_eq mime_type (js "image/png")
    then strip_png bytes
    else if str_eq mime_type (js "image/webp")
    then strip_webp bytes
    else some bytes

module _ (head_of : List ℕ → Head) (is_dropped : List ℕ → Bool) where
  -- The header of `n` bytes is the same, and of the rest just the metadata is gone.
  pub record Keeps (n : ℕ) (bytes out : List ℕ) : Type 0 where
    pub header : take n out ≡ take n bytes
    pub rest : IsStripped head_of is_dropped (drop n bytes) (drop n out)

-- A segment that starts with the marker of APP1, APP13 or COM.
abbrev pub has_app1_app13_or_com : List ℕ → Bool
has_app1_app13_or_com (b ∷ marker ∷ rest) = marker == 225 || marker == 237 || marker == 254
has_app1_app13_or_com _ = false

-- A chunk with one of five types after its length.
abbrev pub has_text_exif_or_time : List ℕ → Bool
has_text_exif_or_time (a ∷ b ∷ c ∷ d ∷ w ∷ x ∷ y ∷ z ∷ rest) =
    let type_ = w ∷ x ∷ y ∷ z ∷ [] in
    str_eq type_ (js "tEXt")
    || str_eq type_ (js "zTXt")
    || str_eq type_ (js "iTXt")
    || str_eq type_ (js "eXIf")
    || str_eq type_ (js "tIME")
has_text_exif_or_time _ = false

jpeg_markers : (c : List ℕ) → is_jpeg_metadata c ≡ has_app1_app13_or_com c
unfolding is_jpeg_metadata is_standalone
jpeg_markers [] = refl
jpeg_markers (b ∷ []) = refl
jpeg_markers (b ∷ marker ∷ rest) = ground arith

png_types : (c : List ℕ) → is_png_metadata c ≡ has_text_exif_or_time c
unfolding is_png_metadata
png_types [] = refl
png_types (a ∷ []) = refl
png_types (a ∷ b ∷ []) = refl
png_types (a ∷ b ∷ c ∷ []) = refl
png_types (a ∷ b ∷ c ∷ d ∷ []) = refl
png_types (a ∷ b ∷ c ∷ d ∷ w ∷ []) = refl
png_types (a ∷ b ∷ c ∷ d ∷ w ∷ x ∷ []) = refl
png_types (a ∷ b ∷ c ∷ d ∷ w ∷ x ∷ y ∷ []) = refl
png_types (a ∷ b ∷ c ∷ d ∷ w ∷ x ∷ y ∷ z ∷ rest) = ground arith

stripped_again :
    (o : List ℕ)
    → walk jpeg_head is_jpeg_metadata (suc (length o)) o ≡ some o
    → strip_jpeg (255 ∷ 216 ∷ o) ≡ some (255 ∷ 216 ∷ o)
unfolding strip_jpeg walk jpeg_head
stripped_again [] e = cc
stripped_again (u ∷ []) e = cc
stripped_again (u ∷ v ∷ w) e = rw e refl

stripped_jpeg :
    (a b : ℕ) (r o : List ℕ)
    → walk jpeg_head is_jpeg_metadata (suc (length (a ∷ b ∷ r))) (a ∷ b ∷ r) ≡ some o
    → Keeps jpeg_head is_jpeg_metadata 2 (255 ∷ 216 ∷ a ∷ b ∷ r) (255 ∷ 216 ∷ o)
      × (strip_jpeg (255 ∷ 216 ∷ o) ≡ some (255 ∷ 216 ∷ o))
stripped_jpeg a b r o h =
    let s = walk-IsStripped jpeg_head jpeg-IsFormat is_jpeg_metadata (a ∷ b ∷ r) o h in
    (record { header = refl; rest = s }, stripped_again o s.again)

kept_jpeg :
    (bytes out : List ℕ)
    → strip_jpeg bytes ≡ some out
    → Keeps jpeg_head is_jpeg_metadata 2 bytes out × (strip_jpeg out ≡ some out)
unfolding strip_jpeg
kept_jpeg [] out h = cc
kept_jpeg (x ∷ []) out h = cc
kept_jpeg (x ∷ y ∷ []) out h = cc
kept_jpeg (x ∷ y ∷ a ∷ []) out h = cc
kept_jpeg (x ∷ y ∷ a ∷ b ∷ r) out h = elim (Bool-cases (x == 255 && y == 216)) [
  | inr other ↦ let k = rw other at h in cc
  | inl same ↦
      elim (Option-cases (walk jpeg_head is_jpeg_metadata (suc (length (a ∷ b ∷ r))) (a ∷ b ∷ r))) [
        | inl gone ↦ let k = rw (same, gone) at h in cc
        | inr (o, there) ↦
            let e : x ≡ 255 = ground arith in
            let f : y ≡ 216 = ground arith in
            let k : (255 ∷ 216 ∷ o) ≡ out = some-injective _ _ (rw (same, there) at h) in
            rw (← k, e, f) (stripped_jpeg a b r o there)
      ]
]

-- A JPEG that is let through keeps its first two bytes, its segments, as the length fields divide
-- the bytes after them, in their order, and its scan, except for just the segments that start with
-- the marker of APP1, APP13 or COM; stripping it again changes nothing.
pub strip_jpeg-Keeps :
    (bytes out : List ℕ)
    → strip_jpeg bytes ≡ some out
    → Keeps jpeg_head has_app1_app13_or_com 2 bytes out × (strip_jpeg out ≡ some out)
strip_jpeg-Keeps bytes out h =
    let k = kept_jpeg bytes out h in
    (subst (λ d. Keeps jpeg_head d 2 bytes out) (λ i c. jpeg_markers c i) k.0, k.1)

stripped_png :
    (bytes o : List ℕ)
    → walk png_head is_png_metadata (suc (length (drop 8 bytes))) (drop 8 bytes) ≡ some o
    → contains_png_chunk o (js "IEND") ≡ true
    → take 8 bytes ≡ png_signature
    → Keeps png_head is_png_metadata 8 bytes (png_signature ++ o)
      × (strip_png (png_signature ++ o) ≡ some (png_signature ++ o))
unfolding strip_png starts_with
stripped_png bytes o h c e =
    let s = walk-IsStripped png_head png-IsFormat is_png_metadata (drop 8 bytes) o h in
    (record { header = sym e; rest = s }, rw (s.again, c) refl)

take-starts_with : (s p : List ℕ) → starts_with s p ≡ true → take (length p) s ≡ p
unfolding starts_with
take-starts_with s [] h = refl
take-starts_with [] (b ∷ p) h = cc
take-starts_with (a ∷ s) (b ∷ p) h = ground (arith, take-starts_with s p)

kept_png :
    (bytes out : List ℕ)
    → strip_png bytes ≡ some out
    → Keeps png_head is_png_metadata 8 bytes out × (strip_png out ≡ some out)
unfolding strip_png
kept_png bytes out h = elim (Bool-cases (starts_with bytes png_signature)) [
  | inr other ↦ let k = rw other at h in cc
  | inl same ↦
      elim (Option-cases
        (walk png_head is_png_metadata (suc (length (drop 8 bytes))) (drop 8 bytes))) [
          | inl gone ↦ let k = rw (same, gone) at h in cc
          | inr (o, there) ↦ elim (Bool-cases (contains_png_chunk o (js "IEND"))) [
            | inr unended ↦ let k = rw (same, there, unended) at h in cc
            | inl ended ↦
                let k : (png_signature ++ o) ≡ out =
                  some-injective _ _ (rw (same, there, ended) at h) in
                rw (← k)
                  (stripped_png bytes o there ended (take-starts_with bytes png_signature same))
          ]
        ]
]

-- A PNG that is let through keeps its signature and its chunks, as the length fields divide the
-- bytes after it, in their order, except for just those of the types tEXt, zTXt, iTXt, eXIf and
-- tIME; stripping it again changes nothing.
pub strip_png-Keeps :
    (bytes out : List ℕ)
    → strip_png bytes ≡ some out
    → Keeps png_head has_text_exif_or_time 8 bytes out × (strip_png out ≡ some out)
strip_png-Keeps bytes out h =
    let k = kept_png bytes out h in
    (subst (λ d. Keeps png_head d 8 bytes out) (λ i c. png_types c i) k.0, k.1)

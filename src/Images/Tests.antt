-- ===== src/Images/Tests.antt =====
-- Small images, stripped.
use yurucommu_core.Base.{
  starts_with, ℕ, ◌≡◌, ◌⊎◌, refl, true, false, some, List, [], ◌∷◌, ◌++◌, js, suc, length, drop,
  any, str_eq,
}
use yurucommu_core.Images.Chunks.{walk, chunks}
use yurucommu_core.Images.Jpeg.{strip_jpeg, jpeg_head, is_jpeg_metadata, is_standalone, segment}
use yurucommu_core.Images.Png.{
  png_chunk, strip_png, png_head, is_png_metadata, png_signature, contains_png_chunk,
}
use yurucommu_core.Images.Webp.{strip_webp, webp_head, is_webp_metadata, clear_vp8x, size_bytes}
use yurucommu_core.Images.Strip.{
  Keeps, strip_jpeg-Keeps, strip_png-Keeps, has_app1_app13_or_com, has_text_exif_or_time,
}
use yurucommu_core.Images.Container.{IsRewritten, has_exif_or_xmp, strip_webp-IsRewritten}

-- EXIF data, a comment, and a table between the start and the scan.
abbrev jpeg_with_comment : List ℕ
jpeg_with_comment =
    255 ∷ 216 ∷ 255 ∷ 225 ∷ 0 ∷ 4 ∷ 69 ∷ 120 ∷ 255 ∷ 254 ∷ 0 ∷ 4 ∷ 72 ∷ 105 ∷ 255 ∷ 219 ∷ 0 ∷ 3 ∷ 7
    ∷ 255 ∷ 218 ∷ 1 ∷ 2 ∷ []

abbrev bare_jpeg : List ℕ
bare_jpeg = 255 ∷ 216 ∷ 255 ∷ 219 ∷ 0 ∷ 3 ∷ 7 ∷ 255 ∷ 218 ∷ 1 ∷ 2 ∷ []

strip_jpeg-Keeps_example :
    Keeps jpeg_head has_app1_app13_or_com 2 jpeg_with_comment bare_jpeg
    × (strip_jpeg bare_jpeg ≡ some bare_jpeg)
unfolding strip_jpeg walk jpeg_head is_jpeg_metadata is_standalone segment
strip_jpeg-Keeps_example = strip_jpeg-Keeps jpeg_with_comment bare_jpeg refl

abbrev png_end : List ℕ
png_end = 0 ∷ 0 ∷ 0 ∷ 0 ∷ js "IEND" ++ 174 ∷ 66 ∷ 96 ∷ 130 ∷ []

abbrev png_with_text : List ℕ
png_with_text = png_signature ++ 0 ∷ 0 ∷ 0 ∷ 2 ∷ js "tEXt" ++ 72 ∷ 105 ∷ 1 ∷ 2 ∷ 3 ∷ 4 ∷ png_end

abbrev bare_png : List ℕ
bare_png = png_signature ++ png_end

strip_png-Keeps_example :
    Keeps png_head has_text_exif_or_time 8 png_with_text bare_png
    × (strip_png bare_png ≡ some bare_png)
unfolding strip_png walk png_head png_chunk is_png_metadata contains_png_chunk starts_with str_eq
strip_png-Keeps_example = strip_png-Keeps png_with_text bare_png refl

abbrev webp_with_exif : List ℕ
webp_with_exif =
    js "RIFF"
    ++ 52 ∷ 0 ∷ 0 ∷ 0 ∷ js "WEBP"
    ++ js "VP8X"
    ++ 10 ∷ 0 ∷ 0 ∷ 0 ∷ 28 ∷ 0 ∷ 0 ∷ 0 ∷ 1 ∷ 0 ∷ 0 ∷ 1 ∷ 0 ∷ 0 ∷ js "VP8 "
    ++ 1 ∷ 0 ∷ 0 ∷ 0 ∷ 7 ∷ 0 ∷ js "EXIF"
    ++ 2 ∷ 0 ∷ 0 ∷ 0 ∷ 8 ∷ 9 ∷ js "XMP "
    ++ 0 ∷ 0 ∷ 0 ∷ 0 ∷ []

abbrev bare_webp : List ℕ
bare_webp =
    js "RIFF"
    ++ 32 ∷ 0 ∷ 0 ∷ 0 ∷ js "WEBP"
    ++ js "VP8X"
    ++ 10 ∷ 0 ∷ 0 ∷ 0 ∷ 16 ∷ 0 ∷ 0 ∷ 0 ∷ 1 ∷ 0 ∷ 0 ∷ 1 ∷ 0 ∷ 0 ∷ js "VP8 "
    ++ 1 ∷ 0 ∷ 0 ∷ 0 ∷ 7 ∷ 0 ∷ []

strip_webp-IsRewritten_example :
    (p : List (List ℕ) × List ℕ) × (chunks webp_head
        (suc (length (drop 12 webp_with_exif)))
        (drop 12 webp_with_exif)
      ≡ some p)
    × (((any has_exif_or_xmp p.0 ≡ false) × (bare_webp ≡ webp_with_exif))
        ⊎ ((any has_exif_or_xmp p.0 ≡ true) × IsRewritten has_exif_or_xmp p bare_webp))
unfolding strip_webp chunks webp_head is_webp_metadata clear_vp8x size_bytes str_eq
strip_webp-IsRewritten_example = strip_webp-IsRewritten webp_with_exif bare_webp refl

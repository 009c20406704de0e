-- ===== src/Images/Container.antt =====
-- What `stripWebp` of src/backend/lib/strip-image-metadata.ts makes of a RIFF container.
use mathlib.Core.Option.{some-injective}
use yurucommu_core.Base.{
  ℕ, suc, ◌+◌, ◌-◌, ◌*◌, ◌/◌, subst, ◌%◌, ◌≡◌, refl, true, false, not, ◌||◌, some, List, [], ◌∷◌,
  Bool, ◌&&◌, take, starts_with, ◌++◌, Option-cases, Bool-cases, inl, inr, ◌⊎◌, length, drop, any,
  js, str_eq, arith, ltb, sym,
}
use yurucommu_core.Images.Chunks.{chunks, copied, kept}
use yurucommu_core.Images.Chunks.Reparse.{chunks_enough, chunks-copied}
use yurucommu_core.Images.Webp.{
  strip_webp, webp_head, is_webp_metadata, webp-IsFormat, clear_vp8x, size_bytes, four_cc,
  clear_flags,
}

-- The size that four bytes spell, the lowest first.
abbrev pub size_of : List ℕ → ℕ
size_of (a ∷ b ∷ c ∷ d ∷ rest) = a + b * 256 + c * 65536 + d * 16777216
size_of _ = 0

size_of-size_bytes : (n : ℕ) (rest : List ℕ) → size_of (size_bytes n ++ rest) ≡ n % 4294967296
unfolding size_bytes
size_of-size_bytes n rest = omega arith

-- A chunk that starts with one of two types.
abbrev pub has_exif_or_xmp : List ℕ → Bool
has_exif_or_xmp c = starts_with c (js "EXIF") || starts_with c (js "XMP ")

-- The bits 2 and 3 of the byte after the header of a leading VP8X are cleared, and nothing else is
-- changed.
abbrev pub IsCleared : List ℕ → List ℕ → Type 0
IsCleared body payload =
    (((starts_with body (js "VP8X") && ltb 8 (length body)) ≡ false) × (payload ≡ body))
    ⊎ ((start : List ℕ) × (flags : ℕ) × (cleared : ℕ) × (rest : List ℕ) × (starts_with start
            (js "VP8X")
          ≡ true)
        × (length start ≡ 8)
        × (body ≡ start ++ flags ∷ rest)
        × (payload ≡ start ++ cleared ∷ rest)
        × (cleared % 4 ≡ flags % 4)
        × (cleared / 4 % 4 ≡ 0)
        × (cleared / 16 ≡ flags / 16))

-- A container that is written anew.
pub record IsRewritten (is_dropped : List ℕ → Bool) (p : List (List ℕ) × List ℕ) (out : List ℕ)
    : Type 0 where
  pub body : List ℕ
  pub body_chunks : chunks webp_head (suc (length body)) body ≡ some (kept is_dropped p.0, p.1)
  pub start : (take 4 out ≡ js "RIFF") × (take 4 (drop 8 out) ≡ js "WEBP")
  pub payload : IsCleared body (drop 12 out)
  pub riff_size : size_of (drop 4 out) ≡ (length out - 8) % 4294967296

four-starts_with :
    (c : List ℕ) (a b d e : ℕ)
    → str_eq (four_cc c) (a ∷ b ∷ d ∷ e ∷ []) ≡ starts_with c (a ∷ b ∷ d ∷ e ∷ [])
unfolding str_eq starts_with
four-starts_with [] a b d e = refl
four-starts_with (w ∷ []) a b d e = ground arith
four-starts_with (w ∷ x ∷ []) a b d e = ground arith
four-starts_with (w ∷ x ∷ y ∷ []) a b d e = ground arith
four-starts_with (w ∷ x ∷ y ∷ z ∷ rest) a b d e = ground arith

webp_types : (c : List ℕ) → is_webp_metadata c ≡ has_exif_or_xmp c
unfolding is_webp_metadata
webp_types c = rw (four-starts_with c 69 88 73 70, four-starts_with c 88 77 80 32) refl

clear_vp8x-IsCleared : (body : List ℕ) → IsCleared body (clear_vp8x body)
unfolding clear_vp8x
clear_vp8x-IsCleared [] = inl (ground arith, refl)
clear_vp8x-IsCleared (w ∷ []) = inl (ground arith, refl)
clear_vp8x-IsCleared (w ∷ x ∷ []) = inl (ground arith, refl)
clear_vp8x-IsCleared (w ∷ x ∷ y ∷ []) = inl (ground arith, refl)
clear_vp8x-IsCleared (w ∷ x ∷ y ∷ z ∷ []) = inl (ground arith, refl)
clear_vp8x-IsCleared (w ∷ x ∷ y ∷ z ∷ a ∷ []) = inl (ground arith, refl)
clear_vp8x-IsCleared (w ∷ x ∷ y ∷ z ∷ a ∷ b ∷ []) = inl (ground arith, refl)
clear_vp8x-IsCleared (w ∷ x ∷ y ∷ z ∷ a ∷ b ∷ c ∷ []) = inl (ground arith, refl)
clear_vp8x-IsCleared (w ∷ x ∷ y ∷ z ∷ a ∷ b ∷ c ∷ d ∷ []) = inl (ground arith, refl)
clear_vp8x-IsCleared (w ∷ x ∷ y ∷ z ∷ a ∷ b ∷ c ∷ d ∷ flags ∷ rest) =
    elim (Bool-cases (str_eq (w ∷ x ∷ y ∷ z ∷ []) (js "VP8X"))) [
      | inr other ↦ rw other (
          inl (
            ground (
              arith,
              four-starts_with (w ∷ x ∷ y ∷ z ∷ a ∷ b ∷ c ∷ d ∷ flags ∷ rest) 86 80 56 88,
            ),
            refl,
          ))
      | inl found ↦ rw found (
          inr (
            w ∷ x ∷ y ∷ z ∷ a ∷ b ∷ c ∷ d ∷ [],
            flags,
            clear_flags flags,
            rest,
            ground (arith, four-starts_with (w ∷ x ∷ y ∷ z ∷ a ∷ b ∷ c ∷ d ∷ []) 86 80 56 88),
            refl,
            refl,
            refl,
            omega arith,
            omega arith,
            omega arith,
          ))
    ]

rewritten :
    (bytes : List ℕ) (p : List (List ℕ) × List ℕ)
    → chunks webp_head (suc (length (drop 12 bytes))) (drop 12 bytes) ≡ some p
    → IsRewritten is_webp_metadata p (
        js "RIFF"
        ++ size_bytes (4 + length (clear_vp8x (copied is_webp_metadata p)))
        ++ js "WEBP"
        ++ clear_vp8x (copied is_webp_metadata p))
unfolding size_bytes
rewritten bytes p h =
    let body = copied is_webp_metadata p in
    let c = chunks-copied webp_head webp-IsFormat is_webp_metadata _ (drop 12 bytes) p h in
    record {
      body = body;
      body_chunks =
          chunks_enough webp_head webp-IsFormat _ (suc (length body)) body _ c (omega arith);
      start = (refl, refl);
      payload = clear_vp8x-IsCleared body;
      riff_size = omega arith;
    }

strip_webp-rewrites :
    (bytes out : List ℕ)
    → strip_webp bytes ≡ some out
    → (p : List (List ℕ) × List ℕ) × (chunks webp_head
          (suc (length (drop 12 bytes)))
          (drop 12 bytes)
        ≡ some p)
      × (((any is_webp_metadata p.0 ≡ false) × (out ≡ bytes))
          ⊎ ((any is_webp_metadata p.0 ≡ true) × IsRewritten is_webp_metadata p out))
unfolding strip_webp
strip_webp-rewrites bytes out h =
    elim (Bool-cases (
      ltb (length bytes) 16
      || not (str_eq (four_cc bytes) (js "RIFF"))
      || not (str_eq (four_cc (drop 8 bytes)) (js "WEBP")))) [
        | inl other ↦ let k = rw other at h in cc
        | inr riff ↦
            elim (Option-cases (chunks webp_head (suc (length (drop 12 bytes))) (drop 12 bytes))) [
              | inl gone ↦ let k = rw (riff, gone) at h in cc
              | inr (p, there) ↦ (
                p,
                there,
                elim (Bool-cases (any is_webp_metadata p.0)) [
                  | inr clean ↦ inl (clean, sym (some-injective _ _ (rw (riff, there, clean) at h)))
                  | inl found ↦ inr (
                    found,
                    rw (← some-injective _ _ (rw (riff, there, found) at h))
                        (rewritten bytes p there),
                  )
                ],
              )
            ]
      ]

-- A WebP that is let through is unchanged if it has no chunk of type EXIF or XMP. Otherwise it is
-- a WebP whose payload has just the other chunks, as the length fields divide the bytes, in their
-- order, with the EXIF and XMP flags of a leading VP8X cleared and no other byte changed, and whose
-- header states the size of what follows it, modulo 2^32.
pub strip_webp-IsRewritten :
    (bytes out : List ℕ)
    → strip_webp bytes ≡ some out
    → (p : List (List ℕ) × List ℕ) × (chunks webp_head
          (suc (length (drop 12 bytes)))
          (drop 12 bytes)
        ≡ some p)
      × (((any has_exif_or_xmp p.0 ≡ false) × (out ≡ bytes))
          ⊎ ((any has_exif_or_xmp p.0 ≡ true) × IsRewritten has_exif_or_xmp p out))
strip_webp-IsRewritten bytes out h =
    subst
      (λ d.
        (p : List (List ℕ) × List ℕ) × (chunks webp_head (suc (length (drop 12 bytes)))
            (drop 12 bytes)
          ≡ some p)
        × (((any d p.0 ≡ false) × (out ≡ bytes)) ⊎ ((any d p.0 ≡ true) × IsRewritten d p out)))
      (λ i c. webp_types c i) (strip_webp-rewrites bytes out h)

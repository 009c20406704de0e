-- ===== src/Images/Webp.antt =====
-- `stripWebp` of src/backend/lib/strip-image-metadata.ts: the chunks of a RIFF container. A byte is
-- a number below 256.
use mathlib.Core.Option
use yurucommu_core.Base.{
  ℕ, suc, ◌+◌, ◌-◌, ◌*◌, ◌/◌, ◌%◌, ◌≤◌, ◌≡◌, refl, Bool, not, ◌||◌, Option, none, List, [], ◌∷◌,
  ◌++◌, if◌then◌else◌, ltb, leb, length, take, drop, any, arith, str_eq, js, JsString,
  length-append, length-take,
}
use yurucommu_core.Images.Chunks.{Head, malformed, tail, chunk, chunks, copied, IsFormat}

-- A size with the highest bit set is negative, `<<` being on 32 bits.
unfoldable pub webp_head : List ℕ → Head
webp_head [] = tail
webp_head (w ∷ x ∷ y ∷ z ∷ a ∷ b ∷ c ∷ d ∷ rest) =
    let size = a + b * 256 + c * 65536 + d * 16777216 in
    let padded = size + size % 2 in
    if leb 128 d || ltb (8 + length rest) (8 + padded) then malformed else chunk (8 + padded)
webp_head _ = malformed

abbrev pub four_cc : List ℕ → JsString
four_cc bytes = take 4 bytes

unfoldable pub is_webp_metadata : List ℕ → Bool
is_webp_metadata c = str_eq (four_cc c) (js "EXIF") || str_eq (four_cc c) (js "XMP ")

-- `byte & ~0b1100`
abbrev pub clear_flags : ℕ → ℕ
clear_flags byte = byte - byte / 4 % 4 * 4

-- `body[8] &= ~0b1100`
unfoldable pub clear_vp8x : List ℕ → List ℕ
clear_vp8x (w ∷ x ∷ y ∷ z ∷ a ∷ b ∷ c ∷ d ∷ flags ∷ rest) =
    (if str_eq (w ∷ x ∷ y ∷ z ∷ []) (js "VP8X")
      then w ∷ x ∷ y ∷ z ∷ a ∷ b ∷ c ∷ d ∷ clear_flags flags ∷ rest
      else w ∷ x ∷ y ∷ z ∷ a ∷ b ∷ c ∷ d ∷ flags ∷ rest)
clear_vp8x body = body

-- The four bytes of a size, the lowest first.
unfoldable pub size_bytes : ℕ → List ℕ
size_bytes n = n % 256 ∷ n / 256 % 256 ∷ n / 65536 % 256 ∷ n / 16777216 % 256 ∷ []

unfoldable pub strip_webp : List ℕ → Option (List ℕ)
strip_webp bytes =
    if ltb (length bytes) 16
      || not (str_eq (four_cc bytes) (js "RIFF"))
      || not (str_eq (four_cc (drop 8 bytes)) (js "WEBP"))
    then none
    else Option.map written (chunks webp_head (suc (length (drop 12 bytes))) (drop 12 bytes))
  where
    written : List (List ℕ) × List ℕ → List ℕ
    written p =
        if not (any is_webp_metadata p.0)
        then bytes
        else (let body = clear_vp8x (copied is_webp_metadata p) in
            js "RIFF" ++ size_bytes (4 + length body) ++ js "WEBP" ++ body)

webp_at_least : (rest : List ℕ) (n : ℕ) → webp_head rest ≡ chunk n → (8 ≤ n) × (n ≤ length rest)
unfolding webp_head
webp_at_least [] n h = cc
webp_at_least (a ∷ []) n h = cc
webp_at_least (a ∷ b ∷ []) n h = cc
webp_at_least (a ∷ b ∷ c ∷ []) n h = cc
webp_at_least (a ∷ b ∷ c ∷ d ∷ []) n h = cc
webp_at_least (a ∷ b ∷ c ∷ d ∷ w ∷ []) n h = cc
webp_at_least (a ∷ b ∷ c ∷ d ∷ w ∷ x ∷ []) n h = cc
webp_at_least (a ∷ b ∷ c ∷ d ∷ w ∷ x ∷ y ∷ []) n h = cc
webp_at_least (a ∷ b ∷ c ∷ d ∷ w ∷ x ∷ y ∷ z ∷ rest) n h = ground arith

local_from_eight :
    (rest more : List ℕ) (k : ℕ)
    → webp_head rest ≡ chunk (suc (suc (suc (suc (suc (suc (suc (suc k))))))))
    → webp_head (take (suc (suc (suc (suc (suc (suc (suc (suc k)))))))) rest ++ more)
      ≡ chunk (suc (suc (suc (suc (suc (suc (suc (suc k))))))))
unfolding webp_head
local_from_eight [] more k h = cc
local_from_eight (a ∷ []) more k h = cc
local_from_eight (a ∷ b ∷ []) more k h = cc
local_from_eight (a ∷ b ∷ c ∷ []) more k h = cc
local_from_eight (a ∷ b ∷ c ∷ d ∷ []) more k h = cc
local_from_eight (a ∷ b ∷ c ∷ d ∷ w ∷ []) more k h = cc
local_from_eight (a ∷ b ∷ c ∷ d ∷ w ∷ x ∷ []) more k h = cc
local_from_eight (a ∷ b ∷ c ∷ d ∷ w ∷ x ∷ y ∷ []) more k h = cc
local_from_eight (a ∷ b ∷ c ∷ d ∷ w ∷ x ∷ y ∷ z ∷ rest) more k h =
    ground (arith, length-append (take k rest) more, length-take k rest)

pub webp-IsFormat : IsFormat webp_head
webp-IsFormat = record {
  positive = λ rest n h. let b = webp_at_least rest n h in omega arith;
  inside = λ rest n h. (webp_at_least rest n h).1;
  local_ = λ rest more n h.
      let b = webp_at_least rest n h in
      let e : n ≡ suc (suc (suc (suc (suc (suc (suc (suc (n - 8)))))))) = omega arith in
      rw e (local_from_eight rest more (n - 8) (rw e at h));
}

pub length-clear_vp8x : (body : List ℕ) → length (clear_vp8x body) ≡ length body
unfolding clear_vp8x
length-clear_vp8x [] = refl
length-clear_vp8x (a ∷ []) = refl
length-clear_vp8x (a ∷ b ∷ []) = refl
length-clear_vp8x (a ∷ b ∷ c ∷ []) = refl
length-clear_vp8x (a ∷ b ∷ c ∷ d ∷ []) = refl
length-clear_vp8x (a ∷ b ∷ c ∷ d ∷ w ∷ []) = refl
length-clear_vp8x (a ∷ b ∷ c ∷ d ∷ w ∷ x ∷ []) = refl
length-clear_vp8x (a ∷ b ∷ c ∷ d ∷ w ∷ x ∷ y ∷ []) = refl
length-clear_vp8x (a ∷ b ∷ c ∷ d ∷ w ∷ x ∷ y ∷ z ∷ []) = refl
length-clear_vp8x (a ∷ b ∷ c ∷ d ∷ w ∷ x ∷ y ∷ z ∷ flags ∷ rest) = ground arith

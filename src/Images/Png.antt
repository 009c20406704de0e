-- ===== src/Images/Png.antt =====
-- `stripPng` of src/backend/lib/strip-image-metadata.ts: the chunks of a PNG. A byte is a number
-- below 256.
use yurucommu_core.Base.{
  ℕ, suc, ◌+◌, ◌-◌, ◌*◌, ◌≤◌, ◌≡◌, Bool, false, not, ◌||◌, Option, none, some, List, [], ◌∷◌, ◌++◌,
  if◌then◌else◌, ltb, leb, ◌==◌, length, take, drop, any, arith, str_eq, js, JsString, starts_with,
  length-append, length-take,
}
use yurucommu_core.Images.Chunks.{Head, malformed, tail, chunk, walk, IsFormat}

abbrev pub png_signature : List ℕ
png_signature = 137 ∷ 80 ∷ 78 ∷ 71 ∷ 13 ∷ 10 ∷ 26 ∷ 10 ∷ []

abbrev pub png_drop_chunks : List JsString
png_drop_chunks = js "tEXt" ∷ js "zTXt" ∷ js "iTXt" ∷ js "eXIf" ∷ js "tIME" ∷ []

-- A chunk of the given end: the one of the type IEND ends the loop, which has to be the end of
-- the bytes as well.
unfoldable pub png_chunk : JsString → ℕ → ℕ → Head
png_chunk type_ chunk_end size =
    if ltb size chunk_end
    then malformed
    else if not (str_eq type_ (js "IEND"))
    then chunk chunk_end
    else if chunk_end == size
    then tail
    else malformed

-- A length with the highest bit set is negative, `<<` being on 32 bits.
unfoldable pub png_head : List ℕ → Head
png_head [] = tail
png_head (a ∷ b ∷ c ∷ d ∷ w ∷ x ∷ y ∷ z ∷ rest) =
    if leb 128 a
    then malformed
    else png_chunk (w ∷ x ∷ y ∷ z ∷ []) (12 + (a * 16777216 + b * 65536 + c * 256 + d))
        (8 + length rest)
png_head _ = malformed

unfoldable pub is_png_metadata : List ℕ → Bool
is_png_metadata (a ∷ b ∷ c ∷ d ∷ w ∷ x ∷ y ∷ z ∷ rest) =
    any (str_eq (w ∷ x ∷ y ∷ z ∷ [])) png_drop_chunks
is_png_metadata _ = false

-- `containsPngChunk`, of the bytes after the signature
unfoldable pub contains_png_chunk : List ℕ → JsString → Bool
contains_png_chunk [] type_ = false
contains_png_chunk (b ∷ bytes) type_ =
    starts_with (b ∷ bytes) type_ || contains_png_chunk bytes type_

unfoldable pub strip_png : List ℕ → Option (List ℕ)
strip_png bytes =
    if starts_with bytes png_signature
    then ended (walk png_head is_png_metadata (suc (length rest)) rest)
    else none
  where
    rest : List ℕ
    rest = drop 8 bytes

    ended : Option (List ℕ) → Option (List ℕ)
    ended none = none
    ended (some out) =
        if contains_png_chunk out (js "IEND") then some (png_signature ++ out) else none

png_at_least : (rest : List ℕ) (n : ℕ) → png_head rest ≡ chunk n → (12 ≤ n) × (n ≤ length rest)
unfolding png_head png_chunk
png_at_least [] n h = cc
png_at_least (a ∷ []) n h = cc
png_at_least (a ∷ b ∷ []) n h = cc
png_at_least (a ∷ b ∷ c ∷ []) n h = cc
png_at_least (a ∷ b ∷ c ∷ d ∷ []) n h = cc
png_at_least (a ∷ b ∷ c ∷ d ∷ w ∷ []) n h = cc
png_at_least (a ∷ b ∷ c ∷ d ∷ w ∷ x ∷ []) n h = cc
png_at_least (a ∷ b ∷ c ∷ d ∷ w ∷ x ∷ y ∷ []) n h = cc
png_at_least (a ∷ b ∷ c ∷ d ∷ w ∷ x ∷ y ∷ z ∷ rest) n h = ground arith

local_from_eight :
    (rest more : List ℕ) (k : ℕ)
    → png_head rest ≡ chunk (suc (suc (suc (suc (suc (suc (suc (suc k))))))))
    → png_head (take (suc (suc (suc (suc (suc (suc (suc (suc k)))))))) rest ++ more)
      ≡ chunk (suc (suc (suc (suc (suc (suc (suc (suc k))))))))
unfolding png_head png_chunk
local_from_eight [] more k h = cc
local_from_eight (a ∷ []) more k h = cc
local_from_eight (a ∷ b ∷ []) more k h = cc
local_from_eight (a ∷ b ∷ c ∷ []) more k h = cc
local_from_eight (a ∷ b ∷ c ∷ d ∷ []) more k h = cc
local_from_eight (a ∷ b ∷ c ∷ d ∷ w ∷ []) more k h = cc
local_from_eight (a ∷ b ∷ c ∷ d ∷ w ∷ x ∷ []) more k h = cc
local_from_eight (a ∷ b ∷ c ∷ d ∷ w ∷ x ∷ y ∷ []) more k h = cc
local_from_eight (a ∷ b ∷ c ∷ d ∷ w ∷ x ∷ y ∷ z ∷ rest) more k h =
    ground (arith, length-append (take k rest) more, length-take k rest)

pub png-IsFormat : IsFormat png_head
png-IsFormat = record {
  positive = λ rest n h. let b = png_at_least rest n h in omega arith;
  inside = λ rest n h. (png_at_least rest n h).1;
  local_ = λ rest more n h.
      let b = png_at_least rest n h in
      let e : n ≡ suc (suc (suc (suc (suc (suc (suc (suc (n - 8)))))))) = omega arith in
      rw e (local_from_eight rest more (n - 8) (rw e at h));
}

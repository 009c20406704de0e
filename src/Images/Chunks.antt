-- ===== src/Images/Chunks.antt =====
-- The walk that the three image formats of src/backend/lib/strip-image-metadata.ts share: the
-- bytes are taken chunk by chunk, and each chunk is copied or left out. The index `i` of the
-- source is the list of the bytes from `i` on.
pub mod Reparse
use mathlib.Core.Option
use mathlib.Core.Option.{some-injective}
use yurucommu_core.Base.{
  ℕ, zero, suc, ◌+◌, ◌-◌, ◌≤◌, ◌<◌, ◌≡◌, refl, Bool, true, false, not, Option, none, some, List, [],
  ◌∷◌, ◌++◌, if◌then◌else◌, Option-cases, Bool-cases, inl, inr, append_assoc, length, take, drop,
  filter, take-append-drop, length-take, length-drop, length-append, arith, min, ap, sym, ◌∙◌, ◌⊎◌,
}

-- What stands at the head of the rest: nothing that the format allows, a tail that ends the walk
-- and is copied as it is, or a chunk of the given length.
pub data Head : Type 0 where
  malformed tail : Head
  chunk : ℕ → Head

abbrev pub concat : List (List ℕ) → List ℕ
concat [] = []
concat (x ∷ xs) = x ++ concat xs

module _ (head_of : List ℕ → Head) (is_dropped : List ℕ → Bool) where
  -- The loop: what it pushes to `out`, or `none` where it throws.
  unfoldable pub walk : ℕ → List ℕ → Option (List ℕ)
  walk zero rest = none
  walk (suc fuel) rest = elim (head_of rest) [
    | malformed ↦ none
    | tail ↦ some rest
    | chunk n ↦
        Option.map (λ out. if is_dropped (take n rest) then out else take n rest ++ out)
          (walk fuel (drop n rest))
  ]

module _ (head_of : List ℕ → Head) where
  -- The chunks of an image, and its tail.
  unfoldable pub chunks : ℕ → List ℕ → Option (List (List ℕ) × List ℕ)
  chunks zero rest = none
  chunks (suc fuel) rest = elim (head_of rest) [
    | malformed ↦ none
    | tail ↦ some ([], rest)
    | chunk n ↦ Option.map (λ p. (take n rest ∷ p.0, p.1)) (chunks fuel (drop n rest))
  ]

  -- A format that reads the length of a chunk from the chunk itself.
  pub record IsFormat : Type 0 where
    pub positive : (rest : List ℕ) (n : ℕ) → head_of rest ≡ chunk n → 0 < n
    pub inside : (rest : List ℕ) (n : ℕ) → head_of rest ≡ chunk n → n ≤ length rest
    pub local_ :
        (rest more : List ℕ) (n : ℕ)
        → head_of rest ≡ chunk n
        → head_of (take n rest ++ more) ≡ chunk n

abbrev pub kept : (List ℕ → Bool) → List (List ℕ) → List (List ℕ)
kept is_dropped = filter (λ c. not (is_dropped c))

-- The bytes of the chunks that are not dropped, and of the tail.
abbrev pub copied : (List ℕ → Bool) → List (List ℕ) × List ℕ → List ℕ
copied is_dropped p = concat (kept is_dropped p.0) ++ p.1

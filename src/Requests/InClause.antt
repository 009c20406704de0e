-- ===== src/Requests/InClause.antt =====
-- src/backend/lib/chunk.ts: the lists of ids that a query binds, in pieces.
use yurucommu_core.Base.{
  ℕ, zero, suc, ◌≤◌, ◌≡◌, refl, List, [], ◌∷◌, ◌++◌, if◌then◌else◌, leb, Bool-cases, inl, inr,
  length, take, drop, take-append-drop, length-take, length-drop, All, append-nil, arith,
}

abbrev pub d1_in_chunk : ℕ
d1_in_chunk = 90

module _ {ℓ} {A : Type ℓ} where
  -- The loop, one step for each piece: `i` is the list of the items from `i` on.
  unfoldable pub slices : ℕ → ℕ → List A → List (List A)
  slices zero size items = []
  slices (suc fuel) size [] = []
  slices (suc fuel) size (x ∷ items) =
      take size (x ∷ items) ∷ slices fuel size (drop size (x ∷ items))

  unfoldable pub chunk_for_in_clause : ℕ → List A → List (List A)
  chunk_for_in_clause size [] = []
  chunk_for_in_clause size (x ∷ items) =
      if leb (length (x ∷ items)) size
      then (x ∷ items) ∷ []
      else slices (length (x ∷ items)) size (x ∷ items)

  abbrev pub joined : List (List A) → List A
  joined [] = []
  joined (c ∷ cs) = c ++ joined cs

  abbrev pub IsPiece : ℕ → List A → Type 0
  IsPiece size c = (1 ≤ length c) × (length c ≤ size)

  slices_lem :
      (fuel size : ℕ) (items : List A)
      → 1 ≤ size
      → length items ≤ fuel
      → (joined (slices fuel size items) ≡ items) × All (IsPiece size) (slices fuel size items)
  unfolding slices
  slices_lem zero size [] h k = (refl, tt)
  slices_lem zero size (x ∷ items) h k = absurd (omega arith)
  slices_lem (suc fuel) size [] h k = (refl, tt)
  slices_lem (suc fuel) size (x ∷ items) h k =
      let t = length-take size (x ∷ items) in
      let d = length-drop size (x ∷ items) in
      let rest = slices_lem fuel size (drop size (x ∷ items)) h (omega arith) in
      (rw rest.0 (take-append-drop size (x ∷ items)), ((omega arith, omega arith), rest.1))

  -- For a positive size, the pieces are the items, in order and with none lost, and each piece has
  -- from one to `size` of them.
  pub chunk_for_in_clause_lem :
      (size : ℕ) (items : List A)
      → 1 ≤ size
      → (joined (chunk_for_in_clause size items) ≡ items)
        × All (IsPiece size) (chunk_for_in_clause size items)
  unfolding chunk_for_in_clause
  chunk_for_in_clause_lem size [] h = (refl, tt)
  chunk_for_in_clause_lem size (x ∷ items) h = elim (Bool-cases (leb (length (x ∷ items)) size)) [
    | inl fits ↦ rw fits (rw (append-nil items) refl, ((omega arith, ground arith), tt))
    | inr long ↦ rw long (slices_lem (length (x ∷ items)) size (x ∷ items) h (omega arith))
  ]

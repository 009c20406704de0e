-- ===== src/Images/Chunks/Reparse.antt =====
-- The result of the walk of src/backend/lib/strip-image-metadata.ts, walked again.
use mathlib.Core.Option
use mathlib.Core.Option.{some-injective}
use yurucommu_core.Base.{
  ℕ, zero, suc, ◌≤◌, ◌<◌, ◌≡◌, refl, Bool, Option, none, some, List, [], ◌∷◌, ◌++◌, if◌then◌else◌,
  Option-cases, Bool-cases, inl, inr, append_assoc, length, take, drop, length-drop, arith, ap, sym,
  ◌⊎◌,
}
use yurucommu_core.Images.Chunks.{
  Head, malformed, tail, chunk, walk, chunks, IsFormat, kept, copied,
}

Head-cases : (h : Head) → (h ≡ malformed) ⊎ (h ≡ tail) ⊎ ((n : ℕ) × (h ≡ chunk n))
Head-cases malformed = inl refl
Head-cases tail = inr (inl refl)
Head-cases (chunk n) = inr (inr (n, refl))

take_of_append : (n : ℕ) (xs ys : List ℕ) → n ≤ length xs → take n (take n xs ++ ys) ≡ take n xs
take_of_append zero xs ys h = refl
take_of_append (suc n) [] ys h = absurd (omega arith)
take_of_append (suc n) (x ∷ xs) ys h = rw (take_of_append n xs ys (omega arith)) refl

drop_of_append : (n : ℕ) (xs ys : List ℕ) → n ≤ length xs → drop n (take n xs ++ ys) ≡ ys
drop_of_append zero xs ys h = refl
drop_of_append (suc n) [] ys h = absurd (omega arith)
drop_of_append (suc n) (x ∷ xs) ys h = drop_of_append n xs ys (omega arith)

module _ (head_of : List ℕ → Head) (is_dropped : List ℕ → Bool) where
  copied_cons :
      (c : List ℕ) (p : List (List ℕ) × List ℕ)
      → copied is_dropped (c ∷ p.0, p.1)
        ≡ (if is_dropped c then copied is_dropped p else c ++ copied is_dropped p)
  copied_cons c (cs, tl) = elim (Bool-cases (is_dropped c)) [
    | inl d ↦ rw d refl
    | inr d ↦ rw d (append_assoc c _ tl)
  ]

  -- The walk copies the chunks that are not dropped, in their order, and the tail.
  pub walk-chunks :
      (fuel : ℕ) (rest : List ℕ)
      → walk head_of is_dropped fuel rest
        ≡ Option.map (copied is_dropped) (chunks head_of fuel rest)
  unfolding walk chunks
  walk-chunks zero rest = refl
  walk-chunks (suc fuel) rest = elim (Head-cases (head_of rest)) [
    | inl e ↦ rw (e, walk, chunks) refl
    | inr (inl e) ↦ rw (e, walk, chunks) refl
    | inr (inr (n, e)) ↦
        rw (e, walk, chunks, walk-chunks fuel (drop n rest))
          (pushed (take n rest) (chunks head_of fuel (drop n rest)))
  ]
    where
      pushed :
          (c : List ℕ) (o : Option (List (List ℕ) × List ℕ))
          → Option.map
              (λ out. if is_dropped c then out else c ++ out)
              (Option.map (copied is_dropped) o)
            ≡ Option.map (copied is_dropped) (Option.map (λ p. (c ∷ p.0, p.1)) o)
      pushed c none = refl
      pushed c (some p) = ap some (sym (copied_cons c p))

module _ (head_of : List ℕ → Head) (format : IsFormat head_of) where
  -- Enough fuel is one more than there are bytes: more of it changes nothing.
  pub chunks_fuel :
      (f g : ℕ) (rest : List ℕ)
      → length rest < f
      → length rest < g
      → chunks head_of f rest ≡ chunks head_of g rest
  unfolding chunks
  chunks_fuel zero g rest h k = absurd (omega arith)
  chunks_fuel (suc f) zero rest h k = absurd (omega arith)
  chunks_fuel (suc f) (suc g) rest h k = elim (Head-cases (head_of rest)) [
    | inl e ↦ rw (e, chunks) refl
    | inr (inl e) ↦ rw (e, chunks) refl
    | inr (inr (n, e)) ↦
        let pos = format.positive rest n e in
        let le = format.inside rest n e in
        let less = length-drop n rest in
        rw (e, chunks, chunks_fuel f g (drop n rest) (omega arith) (omega arith)) refl
  ]

  more_fuel :
      (f : ℕ) (rest : List ℕ) (p : List (List ℕ) × List ℕ)
      → chunks head_of f rest ≡ some p
      → chunks head_of (suc f) rest ≡ some p
  unfolding chunks
  more_fuel zero rest p h = cc
  more_fuel (suc f) rest p h = elim (Head-cases (head_of rest)) [
    | inl e ↦ rw (e, chunks) (rw (e, chunks) at h)
    | inr (inl e) ↦ rw (e, chunks) (rw (e, chunks) at h)
    | inr (inr (n, e)) ↦ elim (Option-cases (chunks head_of f (drop n rest))) [
      | inl gone ↦ let k = rw (e, chunks, gone) at h in cc
      | inr (q, there) ↦
          rw (e, chunks, more_fuel f (drop n rest) q there) (rw (e, chunks, there) at h)
    ]
  ]

  chunk_before :
      (f n : ℕ) (rest out : List ℕ) (q : List (List ℕ) × List ℕ)
      → head_of rest ≡ chunk n
      → chunks head_of f out ≡ some q
      → chunks head_of (suc f) (take n rest ++ out) ≡ some (take n rest ∷ q.0, q.1)
  unfolding chunks
  chunk_before f n rest out q e h =
      let le = format.inside rest n e in
      rw
        (
          format.local_ rest out n e,
          chunks,
          drop_of_append n rest out le,
          take_of_append n rest out le,
          h,
        )
        refl

module _ (head_of : List ℕ → Head) (format : IsFormat head_of) (is_dropped : List ℕ → Bool) where
  -- What is copied has just the chunks that are not dropped, in their order, and the same tail.
  pub chunks-copied :
      (f : ℕ) (rest : List ℕ) (p : List (List ℕ) × List ℕ)
      → chunks head_of f rest ≡ some p
      → chunks head_of f (copied is_dropped p) ≡ some (kept is_dropped p.0, p.1)
  unfolding chunks
  chunks-copied zero rest p h = cc
  chunks-copied (suc f) rest p h = elim (Head-cases (head_of rest)) [
    | inl e ↦ let k = rw (e, chunks) at h in cc
    | inr (inl e) ↦
        let k = some-injective _ _ (rw (e, chunks) at h) in rw (← k) (rw (e, chunks) refl)
    | inr (inr (n, e)) ↦ elim (Option-cases (chunks head_of f (drop n rest))) [
      | inl gone ↦ let k = rw (e, chunks, gone) at h in cc
      | inr (q, there) ↦
          let k = some-injective _ _ (rw (e, chunks, there) at h) in
          rw (← k) (with_chunk n q e (chunks-copied f (drop n rest) q there))
    ]
  ]
    where
      with_chunk :
          (n : ℕ) (q : List (List ℕ) × List ℕ)
          → head_of rest ≡ chunk n
          → chunks head_of f (copied is_dropped q) ≡ some (kept is_dropped q.0, q.1)
          → chunks head_of (suc f) (copied is_dropped (take n rest ∷ q.0, q.1))
            ≡ some (kept is_dropped (take n rest ∷ q.0), q.1)
      with_chunk n q e h =
          rw (copied_cons head_of is_dropped (take n rest) q)
            (elim (Bool-cases (is_dropped (take n rest))) [
              | inl d ↦ rw d (more_fuel head_of format f _ _ h)
              | inr d ↦ rw d (chunk_before head_of format f n rest _ _ e h)
            ])

module _ (head_of : List ℕ → Head) (format : IsFormat head_of) where
  -- A result is the result of enough fuel, however much there was.
  pub chunks_enough :
      (f g : ℕ) (rest : List ℕ) (p : List (List ℕ) × List ℕ)
      → chunks head_of f rest ≡ some p
      → length rest < g
      → chunks head_of g rest ≡ some p
  unfolding chunks
  chunks_enough zero g rest p h k = cc
  chunks_enough (suc f) zero rest p h k = absurd (omega arith)
  chunks_enough (suc f) (suc g) rest p h k = elim (Head-cases (head_of rest)) [
    | inl e ↦ let none_is = rw (e, chunks) at h in cc
    | inr (inl e) ↦ rw (e, chunks) (rw (e, chunks) at h)
    | inr (inr (n, e)) ↦ elim (Option-cases (chunks head_of f (drop n rest))) [
      | inl gone ↦ let none_is = rw (e, chunks, gone) at h in cc
      | inr (q, there) ↦
          let pos = format.positive rest n e in
          let le = format.inside rest n e in
          let less = length-drop n rest in
          rw (e, chunks, chunks_enough f g (drop n rest) q there (omega arith))
            (rw (e, chunks, there) at h)
    ]
  ]

kept_twice :
    (is_dropped : List ℕ → Bool) (cs : List (List ℕ))
    → kept is_dropped (kept is_dropped cs) ≡ kept is_dropped cs
kept_twice is_dropped [] = refl
kept_twice is_dropped (c ∷ cs) = elim (Bool-cases (is_dropped c)) [
  | inl d ↦ rw d (kept_twice is_dropped cs)
  | inr d ↦ rw (d, d, kept_twice is_dropped cs) refl
]

-- What a walk makes of bytes, seen as chunks, and that a second walk changes nothing.
pub record IsStripped (head_of : List ℕ → Head) (is_dropped : List ℕ → Bool) (rest out : List ℕ)
    : Type 0 where
  pub parts : List (List ℕ) × List ℕ
  pub before : chunks head_of (suc (length rest)) rest ≡ some parts
  pub after : chunks head_of (suc (length out)) out ≡ some (kept is_dropped parts.0, parts.1)
  pub again : walk head_of is_dropped (suc (length out)) out ≡ some out

pub walk-IsStripped :
    (head_of : List ℕ → Head) (format : IsFormat head_of) (is_dropped : List ℕ → Bool)
    (rest out : List ℕ)
    → walk head_of is_dropped (suc (length rest)) rest ≡ some out
    → IsStripped head_of is_dropped rest out
walk-IsStripped head_of format is_dropped rest out h =
    let w = rw (walk-chunks head_of is_dropped) at h in
    elim (Option-cases (chunks head_of (suc (length rest)) rest)) [
      | inl gone ↦ let k = rw gone at w in cc
      | inr (p, there) ↦
          let e = some-injective _ _ (rw there at w) in
          let c =
            rw e at (chunks-copied head_of format is_dropped (suc (length rest)) rest p there) in
          let after =
            chunks_enough head_of format (suc (length rest)) (suc (length out)) out _ c
              (omega arith) in
          record {
            parts = p;
            before = there;
            after = after;
            again =
                rw (walk-chunks head_of is_dropped, after)
                  (ap some (rw (kept_twice is_dropped p.0) e));
          }
    ]

-- ===== src/Requests/Conditional/Termination.antt =====
-- The rounds of the scan of `If-None-Match`.
use yurucommu_core.Base.{
  ℕ, zero, suc, ◌≤◌, ◌<◌, ◌||◌, some, [], ◌∷◌, ◌≡◌, ◌≢◌, refl, ap, inl, inr, arith, JsString, ◌==◌,
  length, length-drop, Bool-cases, Option-cases,
}
use yurucommu_core.Requests.Conditional.{
  Scan, out_of_fuel, malformed, tags, to_quote, skip_blanks, skip_weak, quoted, one_more, is_blank,
  tag_at, entity_tags,
}

to_quote-shorter :
    (s : JsString) {body rest : JsString} → to_quote s ≡ some (body, rest) → length rest < length s
unfolding to_quote
to_quote-shorter [] h = cc
to_quote-shorter (x ∷ s) {body} {rest} h = elim (Option-cases (to_quote s)) [
  | inl none_ ↦ ground arith
  | inr ((b, r), found) ↦ let k = to_quote-shorter s found in ground arith
]

skip_blanks-shorter : (s : JsString) → length (skip_blanks s) ≤ length s
unfolding skip_blanks
skip_blanks-shorter [] = omega arith
skip_blanks-shorter (x ∷ s) = ground (arith, skip_blanks-shorter s)

skip_weak-shorter : (s : JsString) → length (skip_weak s) ≤ length s
unfolding skip_weak
skip_weak-shorter s = ground (arith, length-drop 2 s)

-- A tag takes at least one unit of the field.
pub tag_at-shorter :
    (s : JsString) {body rest : JsString} → tag_at s ≡ some (body, rest) → length rest < length s
unfolding tag_at
tag_at-shorter s {body} {rest} h = opened (skip_weak s) refl
  where
    opened : (t : JsString) → skip_weak s ≡ t → length rest < length s
    opened [] e = let x = rw e at h in cc
    opened (x ∷ t) e = elim (Option-cases (to_quote t)) [
      | inl none_ ↦ let y = rw e at h in ground arith
      | inr ((b, r), found) ↦
          let y = rw e at h in
          let k = to_quote-shorter t found in
          let m = skip_blanks-shorter r in let n = skip_weak-shorter s in ground arith
    ]

one_more-fuel : (tag : JsString) (r : Scan) → one_more tag r ≡ out_of_fuel → r ≡ out_of_fuel
one_more-fuel tag out_of_fuel h = refl
one_more-fuel tag malformed h = h
one_more-fuel tag (tags ts) h = cc

-- A field is scanned to its end within as many rounds as it has units: the scan does not run out of
-- fuel, and its result is that of every greater number of rounds.
pub entity_tags-terminates :
    (fuel more : ℕ) (s : JsString)
    → length s ≤ fuel
    → fuel ≤ more
    → (entity_tags fuel s ≢ out_of_fuel) × (entity_tags more s ≡ entity_tags fuel s)
unfolding entity_tags
entity_tags-terminates fuel more [] h k = (λ e. cc, refl)
entity_tags-terminates zero more (x ∷ s) h k = ground arith
entity_tags-terminates (suc fuel) zero (x ∷ s) h k = ground arith
entity_tags-terminates (suc fuel) (suc more) (x ∷ s) h k =
    elim (Bool-cases (x == 44 || is_blank x)) [
      | inl skip ↦
          let r = entity_tags-terminates fuel more s (omega arith) (omega arith) in rw (skip) r
      | inr tag ↦ elim (Option-cases (tag_at (x ∷ s))) [
        | inl bad ↦ rw (tag, bad) (λ e. cc, refl)
        | inr ((body, rest), there) ↦
            let n = tag_at-shorter (x ∷ s) there in
            let r = entity_tags-terminates fuel more rest (omega arith) (omega arith) in
            rw (tag, there)
              (
                λ e. r.0 (one_more-fuel (quoted body) (entity_tags fuel rest) e),
                ap (one_more (quoted body)) r.1,
              )
      ]
    ]

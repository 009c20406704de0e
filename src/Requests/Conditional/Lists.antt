-- ===== src/Requests/Conditional/Lists.antt =====
-- Lists of entity tags.
use yurucommu_core.Base.{
  ℕ, suc, ◌≤◌, Bool, true, false, not, some, List, [], ◌∷◌, ◌++◌, map, ◌≡◌, refl, ap, arith,
  JsString, js, if◌then◌else◌, ◌==◌, length, all, starts_with, append_assoc, append-nil, sym, ◌∙◌,
}
use yurucommu_core.Requests.Conditional.{
  tags, to_quote, skip_blanks, skip_weak, is_end, quoted, one_more, tag_at, entity_tags,
}
use yurucommu_core.Requests.Conditional.Termination.{entity_tags-terminates}

-- An entity tag: whether it is weak, and its body.
pub record Tag : Type 0 where
  pub weak : Bool
  pub body : JsString

abbrev pub no_quote : JsString → Bool
no_quote body = all (λ x. not (x == 34)) body

abbrev pub render_tag : Tag → JsString
render_tag t = if t.weak then js "W/" ++ quoted t.body else quoted t.body

-- `1#entity-tag`, the tags apart by a comma and a space
unfoldable pub render : List Tag → JsString
render [] = []
render (t ∷ []) = render_tag t
render (t ∷ u ∷ ts) = render_tag t ++ (js ", " ++ render (u ∷ ts))

to_quote-quoted :
    (body rest : JsString) → no_quote body ≡ true → to_quote (body ++ 34 ∷ rest) ≡ some (body, rest)
unfolding to_quote
to_quote-quoted [] rest h = refl
to_quote-quoted (x ∷ body) rest h = ground (arith, to_quote-quoted body rest)

skip_blanks-end : (rest : JsString) → is_end rest ≡ true → skip_blanks rest ≡ rest
unfolding skip_blanks
skip_blanks-end [] h = refl
skip_blanks-end (x ∷ s) h = ground arith

tag_at-written :
    (weak : Bool) (body rest : JsString)
    → no_quote body ≡ true
    → is_end rest ≡ true
    → tag_at ((if weak then js "W/" ++ quoted body else quoted body) ++ rest) ≡ some (body, rest)
unfolding tag_at skip_weak starts_with
tag_at-written true body rest h k =
    rw (append_assoc body (34 ∷ []) rest, to_quote-quoted body rest h, skip_blanks-end rest k, k)
      refl
tag_at-written false body rest h k =
    rw (append_assoc body (34 ∷ []) rest, to_quote-quoted body rest h, skip_blanks-end rest k, k)
      refl

-- A tag at the front is scanned, whatever the fuel that is left.
scanned-written :
    (fuel : ℕ) (weak : Bool) (body rest : JsString)
    → no_quote body ≡ true
    → is_end rest ≡ true
    → entity_tags (suc fuel) ((if weak then js "W/" ++ quoted body else quoted body) ++ rest)
      ≡ one_more (quoted body) (entity_tags fuel rest)
unfolding entity_tags
scanned-written fuel true body rest h k =
    let there = tag_at-written true body rest h k in rw there refl
scanned-written fuel false body rest h k =
    let there = tag_at-written false body rest h k in rw there refl

-- The rounds that a list takes: one for a tag, two for what stands between two tags.
abbrev rounds : List Tag → ℕ → ℕ
rounds [] extra = extra
rounds (t ∷ []) extra = suc extra
rounds (t ∷ u ∷ ts) extra = suc (suc (suc (rounds (u ∷ ts) extra)))

rounds-extra : (ts : List Tag) (extra : ℕ) → extra ≤ rounds ts extra
rounds-extra [] extra = omega arith
rounds-extra (t ∷ []) extra = omega arith
rounds-extra (t ∷ u ∷ ts) extra = omega (arith, rounds-extra (u ∷ ts) extra)

entity_tags-rounds :
    (ts : List Tag) (extra : ℕ)
    → all (λ t. no_quote t.body) ts ≡ true
    → entity_tags (rounds ts extra) (render ts) ≡ tags (map (λ t. quoted t.body) ts)
unfolding render entity_tags
entity_tags-rounds [] extra h = refl
entity_tags-rounds (t ∷ []) extra h =
    rw (← append-nil (render_tag t)) (scanned-written extra t.weak t.body [] (ground arith) refl)
entity_tags-rounds (t ∷ u ∷ ts) extra h =
    scanned-written (suc (suc (rounds (u ∷ ts) extra))) t.weak t.body (js ", " ++ render (u ∷ ts))
      (ground arith) refl
    ∙ ap (one_more (quoted t.body)) (entity_tags-rounds (u ∷ ts) extra (ground arith))

-- A list of entity tags, written with commas and spaces, is scanned into its opaque tags, in order
-- and with their quotes, whether or not they are weak and whatever else than a quote they contain: a
-- comma within a tag is no separator.
pub entity_tags-render :
    (ts : List Tag)
    → all (λ t. no_quote t.body) ts ≡ true
    → entity_tags (length (render ts)) (render ts) ≡ tags (map (λ t. quoted t.body) ts)
entity_tags-render ts h =
    sym
      (entity_tags-terminates (length (render ts)) (rounds ts (length (render ts))) (render ts)
        (omega arith) (rounds-extra ts (length (render ts)))).1
    ∙ entity_tags-rounds ts (length (render ts)) h

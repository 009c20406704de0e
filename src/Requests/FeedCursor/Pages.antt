-- ===== src/Requests/FeedCursor/Pages.antt =====
-- Paging through a feed with cursors.
use mathlib.Core.Option.{some-injective}
use yurucommu_core.Base.{
  ℕ, zero, suc, ◌+◌, ◌≤◌, Bool, true, false, not, Option, none, some, List, [], ◌∷◌, ◌++◌, ◌≡◌, ◌∙◌,
  sym, ap, subst, refl, inl, inr, arith, JsString, str_eq_iff, str_gt, str_gt_asymm, ◌==◌, filter,
  take, drop, length, all, get_elem?, All, take-append-drop, Bool-cases,
}
use yurucommu_core.Requests.FeedCursor.{
  Row, encode_feed_cursor, split_cursor, is_older, feed_cursor_where,
}

abbrev pub no_separator : JsString → Bool
no_separator s = all (λ x. not (x == 32)) s

-- Every row is older than the ones before it, and no time has a separator.
abbrev pub IsFeed : List Row → Type 0
IsFeed [] = Unit
IsFeed (r ∷ rows) =
    (no_separator r.published ≡ true)
    × All (λ row. is_older r.published r.ap_id row ≡ true) rows
    × IsFeed rows

split-encode :
    (sort_key tiebreaker : JsString)
    → no_separator sort_key ≡ true
    → split_cursor (encode_feed_cursor sort_key tiebreaker) ≡ some (sort_key, tiebreaker)
unfolding split_cursor encode_feed_cursor
split-encode [] tiebreaker h = refl
split-encode (x ∷ sort_key) tiebreaker h = ground (arith, split-encode sort_key tiebreaker)

where-encode :
    (sort_key tiebreaker : JsString) (row : Row)
    → no_separator sort_key ≡ true
    → feed_cursor_where (some (encode_feed_cursor sort_key tiebreaker)) row
      ≡ is_older sort_key tiebreaker row
unfolding feed_cursor_where encode_feed_cursor
where-encode [] tiebreaker row h = let e = split-encode [] tiebreaker h in rw e refl
where-encode (x ∷ sort_key) tiebreaker row h =
    let e = split-encode (x ∷ sort_key) tiebreaker h in rw e refl

str_gt_irrefl : (s : JsString) → str_gt s s ≡ false
str_gt_irrefl s = elim (Bool-cases (str_gt s s)) [ inl h ↦ str_gt_asymm s s h | inr h ↦ h ]

older-asymm :
    (a b : Row) → is_older a.published a.ap_id b ≡ true → is_older b.published b.ap_id a ≡ false
unfolding is_older
older-asymm a b h = ground (
  arith,
  str_gt_asymm a.published b.published,
  str_gt_asymm a.ap_id b.ap_id,
  str_eq_iff a.published b.published,
  str_eq_iff b.published a.published,
  str_gt_irrefl a.published,
  str_gt_irrefl b.published,
)

older_self : (r : Row) → is_older r.published r.ap_id r ≡ false
unfolding is_older
older_self r = ground (arith, str_gt_irrefl r.published, str_gt_irrefl r.ap_id)

filter_every :
    (p : Row → Bool) (rows : List Row) → All (λ row. p row ≡ true) rows → filter p rows ≡ rows
filter_every p [] h = refl
filter_every p (r ∷ rows) (q, h) = rw (q, filter_every p rows h) refl

at-All :
    (p : Row → Bool) (rows : List Row) (i : ℕ) {r : Row}
    → All (λ row. p row ≡ true) rows
    → get_elem? rows i ≡ some r
    → p r ≡ true
at-All p [] i h e = cc
at-All p (x ∷ rows) zero (q, h) e = ground arith
at-All p (x ∷ rows) (suc i) (q, h) e = at-All p rows i h e

-- The rows that are older than one of the feed are those that come after it.
filter-older :
    (rows : List Row) (i : ℕ) {r : Row}
    → IsFeed rows
    → get_elem? rows i ≡ some r
    → filter (is_older r.published r.ap_id) rows ≡ drop (suc i) rows
filter-older [] i h e = cc
filter-older (x ∷ rows) zero {r} (clean, older, h) e =
    let q : x ≡ r = some-injective x r e in
    subst (λ (s : Row). filter (is_older s.published s.ap_id) (x ∷ rows) ≡ rows) q
      (rw (older_self x) (filter_every (is_older x.published x.ap_id) rows older))
filter-older (x ∷ rows) (suc i) {r} (clean, older, h) e =
    let o = at-All (is_older x.published x.ap_id) rows i older e in
    rw (older-asymm x r o) (filter-older rows i h e)

clean_at :
    (rows : List Row) (i : ℕ) {r : Row}
    → IsFeed rows
    → get_elem? rows i ≡ some r
    → no_separator r.published ≡ true
clean_at [] i h e = cc
clean_at (x ∷ rows) zero (clean, older, h) e = ground arith
clean_at (x ∷ rows) (suc i) (clean, older, h) e = clean_at rows i h e

filter-same :
    (p q : Row → Bool) (rows : List Row) → ((r : Row) → p r ≡ q r) → filter p rows ≡ filter q rows
filter-same p q [] same = refl
filter-same p q (r ∷ rows) same = rw (same r, filter-same p q rows same) refl

-- The cursor of a row selects what comes after it.
cursor-drop :
    (rows : List Row) (i : ℕ) {r : Row}
    → IsFeed rows
    → get_elem? rows i ≡ some r
    → filter (feed_cursor_where (some (encode_feed_cursor r.published r.ap_id))) rows
      ≡ drop (suc i) rows
cursor-drop rows i {r} h e =
    filter-same (feed_cursor_where (some (encode_feed_cursor r.published r.ap_id)))
      (is_older r.published r.ap_id) rows
      (λ row. where-encode r.published r.ap_id row (clean_at rows i h e))
    ∙ filter-older rows i h e

abbrev last_of : List Row → Option Row
last_of [] = none
last_of (r ∷ []) = some r
last_of (r ∷ s ∷ rows) = last_of (s ∷ rows)

abbrev continue : Option Row → (Option JsString → List Row) → List Row
continue none k = []
continue (some r) k = k (some (encode_feed_cursor r.published r.ap_id))

-- The rows that a client sees that reads page after page, of `limit` rows at most, each with the
-- cursor of the last row before; the fuel is the number of the pages.
unfoldable pub read_pages : ℕ → ℕ → Option JsString → List Row → List Row
read_pages zero limit before rows = []
read_pages (suc fuel) limit before rows =
    let page = take limit (filter (feed_cursor_where before) rows) in
    page ++ continue (last_of page) (λ before'. read_pages fuel limit before' rows)

last-get : (y : Row) (page : List Row) → last_of (y ∷ page) ≡ get_elem? (y ∷ page) (length page)
last-get y [] = refl
last-get y (z ∷ page) = last-get z page

get-take :
    (n : ℕ) (xs : List Row) (j : ℕ) {r : Row}
    → get_elem? (take n xs) j ≡ some r
    → get_elem? xs j ≡ some r
get-take zero xs j h = cc
get-take (suc n) [] j h = h
get-take (suc n) (x ∷ xs) zero h = h
get-take (suc n) (x ∷ xs) (suc j) h = get-take n xs j h

get-drop : (m : ℕ) (xs : List Row) (j : ℕ) → get_elem? (drop m xs) j ≡ get_elem? xs (m + j)
get-drop zero xs j = ap (get_elem? xs) (omega arith)
get-drop (suc m) [] j = refl
get-drop (suc m) (x ∷ xs) j =
    get-drop m xs j ∙ ap (get_elem? (x ∷ xs)) (let e : suc (m + j) ≡ suc m + j = omega arith in e)

get-some : (y : Row) (page : List Row) → (r : Row) × (get_elem? (y ∷ page) (length page) ≡ some r)
get-some y [] = (y, refl)
get-some y (z ∷ page) = get-some z page

drop-nil : (n : ℕ) → drop {A = Row} n [] ≡ []
drop-nil zero = refl
drop-nil (suc n) = refl

drop-all : (n : ℕ) (rows : List Row) → length rows ≤ n → drop n rows ≡ []
drop-all n [] h = drop-nil n
drop-all zero (r ∷ rows) h = ground arith
drop-all (suc n) (r ∷ rows) h = drop-all n rows (omega arith)

take-empty : (n : ℕ) (ys : List Row) → 1 ≤ n → take n ys ≡ [] → ys ≡ []
take-empty zero ys h e = ground arith
take-empty (suc n) [] h e = refl
take-empty (suc n) (y ∷ ys) h e = cc

drop-drop : (a b : ℕ) (rows : List Row) → drop a (drop b rows) ≡ drop (b + a) rows
drop-drop a zero rows = ap (λ n. drop n rows) (omega arith)
drop-drop a (suc b) [] = drop-nil a ∙ sym (drop-nil (suc b + a))
drop-drop a (suc b) (x ∷ rows) =
    drop-drop a b rows
    ∙ ap (λ n. drop n (x ∷ rows)) (let e : suc (b + a) ≡ suc b + a = omega arith in e)

-- What is left after a page.
drop-page : (limit : ℕ) (ys : List Row) → drop (length (take limit ys)) ys ≡ drop limit ys
drop-page zero ys = refl
drop-page (suc limit) [] = refl
drop-page (suc limit) (y ∷ ys) = drop-page limit ys

-- One page, and the rest of the feed after it.
page-rest :
    (limit m fuel : ℕ) (rows page : List Row) (k : Option JsString → List Row)
    → IsFeed rows
    → 1 ≤ limit
    → length rows ≤ m + suc fuel
    → ((before : Option JsString) (n : ℕ)
        → length rows ≤ n + fuel
        → filter (feed_cursor_where before) rows ≡ drop n rows
        → k before ≡ drop n rows)
    → take limit (drop m rows) ≡ page
    → page ++ continue (last_of page) k ≡ drop m rows
page-rest limit m fuel rows [] k feed some_rows enough more e =
    sym (take-empty limit (drop m rows) some_rows e)
page-rest limit m fuel rows (y ∷ page) k feed some_rows enough more e =
    rw (last-get y page, last.1)
      (ap (λ rest. (y ∷ page) ++ rest)
          (more _ (suc (m + length page)) (omega arith)
            (cursor-drop rows (m + length page) feed at_last))
        ∙ whole)
  where
    last : (r : Row) × (get_elem? (y ∷ page) (length page) ≡ some r)
    last = get-some y page

    at_last : get_elem? rows (m + length page) ≡ some last.0
    at_last =
        sym (get-drop m rows (length page))
        ∙ get-take limit (drop m rows) (length page) (rw e last.1)

    n : m + suc (length page) ≡ suc (m + length page)
    n = omega arith

    after_page : drop limit (drop m rows) ≡ drop (suc (m + length page)) rows
    after_page =
        sym (drop-page limit (drop m rows))
        ∙ ap (λ p. drop (length p) (drop m rows)) e
        ∙ drop-drop (suc (length page)) m rows
        ∙ ap (λ i. drop i rows) n

    whole : (y ∷ page) ++ drop (suc (m + length page)) rows ≡ drop m rows
    whole =
        ap (λ rest. (y ∷ page) ++ rest) (sym after_page)
        ∙ ap (λ p. p ++ drop limit (drop m rows)) (sym e)
        ∙ take-append-drop limit (drop m rows)

read_pages-drop :
    (fuel limit : ℕ) (before : Option JsString) (rows : List Row) (m : ℕ)
    → IsFeed rows
    → 1 ≤ limit
    → length rows ≤ m + fuel
    → filter (feed_cursor_where before) rows ≡ drop m rows
    → read_pages fuel limit before rows ≡ drop m rows
unfolding read_pages
read_pages-drop zero limit before rows m feed some_rows enough h =
    sym (drop-all m rows (omega arith))
read_pages-drop (suc fuel) limit before rows m feed some_rows enough h = rw h (
    page-rest limit m fuel rows (take limit (drop m rows)) (λ b. read_pages fuel limit b rows) feed
      some_rows enough (λ b n k e. read_pages-drop fuel limit b rows n feed some_rows k e) refl)

-- A client that reads a feed page after page, each page with the cursor of the last row of the one
-- before, sees every row of the feed once and in its order, whatever the size of the pages and
-- however many rows share a time; as many pages as there are rows are enough.
pub read_pages-all :
    (limit : ℕ) (rows : List Row)
    → IsFeed rows
    → 1 ≤ limit
    → read_pages (length rows) limit none rows ≡ rows
unfolding feed_cursor_where
read_pages-all limit rows feed some_rows =
    read_pages-drop (length rows) limit none rows 0 feed some_rows (omega arith) (everything rows)
  where
    everything : (xs : List Row) → filter (λ (r : Row). true) xs ≡ xs
    everything [] = refl
    everything (x ∷ xs) = rw (everything xs) refl

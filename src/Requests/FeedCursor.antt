-- ===== src/Requests/FeedCursor.antt =====
-- src/backend/lib/feed-cursor.ts: cursors of feeds ordered by the time and then the id of a row, the
-- newest first. Columns are compared as texts.
pub mod Pages
use mathlib.Core.Option
use yurucommu_core.Base.{
  ℕ, zero, suc, Bool, true, false, ◌&&◌, ◌||◌, Option, none, some, List, [], ◌∷◌, ◌++◌, JsString,
  str_eq, str_gt, if◌then◌else◌, ◌==◌, filter, take,
}

pub record Row : Type 0 where
  pub published : JsString
  pub ap_id : JsString

abbrev pub feed_cursor_sep : ℕ
feed_cursor_sep = 32

unfoldable pub encode_feed_cursor : JsString → JsString → JsString
encode_feed_cursor sort_key tiebreaker = sort_key ++ feed_cursor_sep ∷ tiebreaker

-- What stands before and after the first separator.
unfoldable pub split_cursor : JsString → Option (JsString × JsString)
split_cursor [] = none
split_cursor (x ∷ s) = if x == feed_cursor_sep then some ([], s) else longer (split_cursor s)
  where
    longer : Option (JsString × JsString) → Option (JsString × JsString)
    longer none = none
    longer (some (a, b)) = some (x ∷ a, b)

-- `published < p OR (published = p AND apId < a)`
unfoldable pub is_older : JsString → JsString → Row → Bool
is_older published ap_id row =
    str_gt published row.published || (str_eq row.published published && str_gt ap_id row.ap_id)

-- The predicate on a row; it is true of every row if there is none.
unfoldable pub feed_cursor_where : Option JsString → Row → Bool
feed_cursor_where none row = true
feed_cursor_where (some []) row = true
feed_cursor_where (some (x ∷ s)) row = matched (split_cursor (x ∷ s))
  where
    matched : Option (JsString × JsString) → Bool
    matched none = str_gt (x ∷ s) row.published
    matched (some (c_published, c_ap_id)) = is_older c_published c_ap_id row

-- ===== src/Requests/Conditional.antt =====
-- src/backend/lib/conditional-request.ts: `If-None-Match`. The scan works on what is left of the
-- field; a round of its loop takes one unit of fuel.
pub mod Termination
pub mod Lists
use yurucommu_core.Base.{
  ℕ, zero, suc, ◌+◌, ◌-◌, Bool, true, false, not, ◌&&◌, ◌||◌, Option, none, some, List, [], ◌∷◌,
  ◌++◌, JsString, js, str_eq, if◌then◌else◌, ltb, ◌==◌, length, drop, any, starts_with,
}
use yurucommu_core.Ssrf.Text.{trim, ends_with}
use yurucommu_core.Ssrf.Urls.{is_empty}

pub data Scan : Type 0 where
  out_of_fuel malformed : Scan
  tags : List JsString → Scan

abbrev is_blank : ℕ → Bool
is_blank x = x == 32 || x == 9

-- The body of a tag up to the closing quote, and what follows it.
unfoldable pub to_quote : JsString → Option (JsString × JsString)
to_quote [] = none
to_quote (x ∷ s) = if x == 34 then some ([], s) else longer (to_quote s)
  where
    longer : Option (JsString × JsString) → Option (JsString × JsString)
    longer none = none
    longer (some (body, rest)) = some (x ∷ body, rest)

unfoldable pub skip_blanks : JsString → JsString
skip_blanks [] = []
skip_blanks (x ∷ s) = let rest = skip_blanks s in if is_blank x then rest else x ∷ s

-- `if (field.startsWith("W/", index)) index += 2`
unfoldable pub skip_weak : JsString → JsString
skip_weak s = if starts_with s (js "W/") then drop 2 s else s

-- The end of the field, or a comma.
abbrev pub is_end : JsString → Bool
is_end [] = true
is_end (x ∷ s) = x == 44

abbrev pub quoted : JsString → JsString
quoted body = 34 ∷ (body ++ 34 ∷ [])

abbrev pub one_more : JsString → Scan → Scan
one_more tag out_of_fuel = out_of_fuel
one_more tag malformed = malformed
one_more tag (tags ts) = tags (tag ∷ ts)

-- What a tag at the front is: its body, and what is left after the blanks behind it.
unfoldable pub tag_at : JsString → Option (JsString × JsString)
tag_at s = opened (skip_weak s)
  where
    closed : Option (JsString × JsString) → Option (JsString × JsString)
    closed none = none
    closed (some (body, rest)) =
        let after = skip_blanks rest in if is_end after then some (body, after) else none

    opened : JsString → Option (JsString × JsString)
    opened [] = none
    opened (x ∷ s') = if x == 34 then closed (to_quote s') else none

unfoldable pub entity_tags : ℕ → JsString → Scan
entity_tags fuel [] = tags []
entity_tags zero (x ∷ s) = out_of_fuel
entity_tags (suc fuel) (x ∷ s) =
    let skipped = entity_tags fuel s in
    if x == 44 || is_blank x
    then skipped
    else tagged (tag_at (x ∷ s)) (λ rest. entity_tags fuel rest)
  where
    tagged : Option (JsString × JsString) → (JsString → Scan) → Scan
    tagged none k = malformed
    tagged (some (body, rest)) k = one_more (quoted body) (k rest)

unfoldable pub opaque_tag_of : JsString → Option JsString
opaque_tag_of tag =
    let bare = if starts_with tag (js "W/") then drop 2 tag else tag in
    if ltb (length bare) 2 || (not (starts_with bare (js "\"")) || not (ends_with bare (js "\"")))
    then none
    else some bare

-- `entityTags(field).includes(target)`
abbrev pub includes_tag : JsString → Scan → Bool
includes_tag target (tags ts) = any (λ t. str_eq t target) ts
includes_tag target _ = false

unfoldable pub if_none_match_is_fresh : Option JsString → Option JsString → Bool
if_none_match_is_fresh header http_etag = given header http_etag
  where
    against : JsString → Option JsString → Bool
    against field none = false
    against field (some target) = includes_tag target (entity_tags (length field) field)

    given : Option JsString → Option JsString → Bool
    given (some h) (some etag) =
        if is_empty h || is_empty etag
        then false
        else if str_eq (trim h) (js "*")
        then true
        else against (trim h) (opaque_tag_of etag)
    given _ _ = false

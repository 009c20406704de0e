-- ===== src/Limits/RateLimit/Fallback.antt =====
-- The map of the process in src/backend/middleware/rate-limit.ts: it stays bounded, and never loses the entry that was
-- touched last.
use yurucommu_core.Base.{
  ℕ, ◌≤◌, ◌≡◌, refl, Option, none, some, [], ◌∷◌, JsString, JsMap, lookup, insert, remove,
  if◌then◌else◌, leb, length, arith, str_eq_refl, str_eq_iff, lookup-remove_self,
}
use yurucommu_core.Limits.RateLimit.{
  RateLimitEntry, fallback_rate_limit_max_entries, unexpired, enforce_fallback_lru_cap,
  evict_expired_fallback_entries, touch_fallback_entry, consume_local_fallback, next_entry,
}

-- An entry counts until its window is over.
unfoldable pub live : Option RateLimitEntry → ℕ → Option RateLimitEntry
live none now = none
live (some e) now = if leb e.reset_at now then none else some e

pub length-enforce_fallback_lru_cap :
    (m : JsMap RateLimitEntry)
    → length (enforce_fallback_lru_cap m) ≤ fallback_rate_limit_max_entries
unfolding enforce_fallback_lru_cap
length-enforce_fallback_lru_cap [] = omega arith
length-enforce_fallback_lru_cap (e ∷ m) = ground (arith, length-enforce_fallback_lru_cap m)

cap_small :
    (m : JsMap RateLimitEntry)
    → length m ≤ fallback_rate_limit_max_entries
    → enforce_fallback_lru_cap m ≡ m
unfolding enforce_fallback_lru_cap
cap_small [] h = refl
cap_small (e ∷ m) h = ground arith

length-unexpired : (now : ℕ) (m : JsMap RateLimitEntry) → length (unexpired now m) ≤ length m
unfolding unexpired
length-unexpired now [] = omega arith
length-unexpired now ((k, e) ∷ m) = ground (arith, length-unexpired now m)

-- The entry of a key that the rest of the map does not have.
unexpired-insert :
    (now : ℕ) (k : JsString) (e : RateLimitEntry) (m : JsMap RateLimitEntry)
    → lookup k m ≡ none
    → lookup k (unexpired now (insert k e m)) ≡ live (some e) now
unfolding unexpired lookup insert live
unexpired-insert now k e [] h = ground (arith, str_eq_refl k)
unexpired-insert now k e ((j, w) ∷ m) h = ground (arith, unexpired-insert now k e m, str_eq_iff j k)

capped_insert :
    (now : ℕ) (k : JsString) (e : RateLimitEntry) (m : JsMap RateLimitEntry)
    → lookup k m ≡ none
    → lookup k (unexpired now (enforce_fallback_lru_cap (insert k e m))) ≡ live (some e) now
unfolding unexpired lookup insert live enforce_fallback_lru_cap
capped_insert now k e [] h = ground (arith, str_eq_refl k)
capped_insert now k e ((j, w) ∷ m) h =
    ground (arith, capped_insert now k e m, unexpired-insert now k e m, str_eq_iff j k)

-- What a request at `now` finds of a key.
abbrev pub found : JsString → ℕ → JsMap RateLimitEntry → Option RateLimitEntry
found key now m = lookup key (evict_expired_fallback_entries now m)

touched :
    (key : JsString) (now : ℕ) (e : RateLimitEntry) (m : JsMap RateLimitEntry)
    → found key now (enforce_fallback_lru_cap (touch_fallback_entry key e m)) ≡ live (some e) now
unfolding evict_expired_fallback_entries touch_fallback_entry
touched key now e m =
    let m' = enforce_fallback_lru_cap (insert key e (remove key m)) in
    let short = length-enforce_fallback_lru_cap (insert key e (remove key m)) in
    let small = length-unexpired now m' in
    rw (cap_small (unexpired now m') (omega arith))
      (capped_insert now key e (remove key m) (lookup-remove_self key m))

-- A request as one reading and one writing of the map.
pub consume_local_fallback_lem :
    (key : JsString) (window_ms now : ℕ) (m : JsMap RateLimitEntry)
    → consume_local_fallback key window_ms now m ≡ (
        let e = next_entry (live (found key now m) now) window_ms now in
        (
          e,
          enforce_fallback_lru_cap
              (touch_fallback_entry key e (evict_expired_fallback_entries now m)),
        ))
unfolding consume_local_fallback live next_entry
consume_local_fallback_lem key window_ms now m = ground arith

-- However many clients there are, and whatever the map holds before, it holds at most ten thousand
-- entries after a request, the one of the request's own key among them as long as it counts.
pub consume_local_fallback-bounded :
    (key : JsString) (window_ms now later : ℕ) (m : JsMap RateLimitEntry)
    → (length (consume_local_fallback key window_ms now m).1 ≤ fallback_rate_limit_max_entries)
      × (found key later (consume_local_fallback key window_ms now m).1
          ≡ live (some (consume_local_fallback key window_ms now m).0) later)
consume_local_fallback-bounded key window_ms now later m =
    rw (consume_local_fallback_lem key window_ms now m) (
      length-enforce_fallback_lru_cap _,
      touched key later _ (evict_expired_fallback_entries now m),
    )

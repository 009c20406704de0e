-- ===== src/Limits/RateLimit.antt =====
-- src/backend/middleware/rate-limit.ts: requests counted per client and window, in the key-value
-- store (the one of src/backend/runtime/memory-kv.ts, with an entry for the JSON text that spells
-- it) or else in a bounded map of the process.
pub mod Configs
pub mod Fallback
pub mod Counters
pub mod Budgets
mod Tests
use yurucommu_core.Base.{
  ℕ, zero, suc, ◌+◌, ◌-◌, ◌*◌, max, Bool, true, false, not, ◌&&◌, ◌||◌, Option, none, some, List,
  [], ◌∷◌, ◌++◌, JsString, JsMap, js, lookup, insert, remove, if◌then◌else◌, ltb, leb, ◌==◌,
  ceil_seconds, length, any, str_eq, get_or_else,
}
use yurucommu_core.Base.Json.{
  Json, null, bool, nat, negative, fraction, str, arr, obj, Fields, field, prop,
}
use yurucommu_core.Runtime.MemoryKv
use yurucommu_core.Runtime.MemoryKv.{Entry, ttl_of}

pub record RateLimitEntry : Type 0 where
  pub count : ℕ
  pub reset_at : ℕ

abbrev pub fallback_rate_limit_max_entries : ℕ
fallback_rate_limit_max_entries = 10000

-- The entries whose window is not over, in their order.
unfoldable pub unexpired : ℕ → JsMap RateLimitEntry → JsMap RateLimitEntry
unexpired now [] = []
unexpired now ((key, entry) ∷ m) =
    let rest = unexpired now m in if leb entry.reset_at now then rest else (key, entry) ∷ rest

-- The first key is deleted as long as the map is too large.
unfoldable pub enforce_fallback_lru_cap : JsMap RateLimitEntry → JsMap RateLimitEntry
enforce_fallback_lru_cap [] = []
enforce_fallback_lru_cap (e ∷ m) =
    let rest = enforce_fallback_lru_cap m in
    if ltb fallback_rate_limit_max_entries (length (e ∷ m)) then rest else e ∷ m

unfoldable pub evict_expired_fallback_entries : ℕ → JsMap RateLimitEntry → JsMap RateLimitEntry
evict_expired_fallback_entries now m = enforce_fallback_lru_cap (unexpired now m)

-- A key that is deleted first is inserted at the end.
unfoldable pub touch_fallback_entry :
    JsString → RateLimitEntry → JsMap RateLimitEntry → JsMap RateLimitEntry
touch_fallback_entry key entry m = insert key entry (remove key m)

-- `JSON.stringify(entry)`, as the value that it parses to.
unfoldable pub stringify : RateLimitEntry → Json
stringify e =
    obj (field (js "count") (nat e.count) (field (js "resetAt") (nat e.reset_at) Fields.end))

-- A number of a stored entry. The operations write natural numbers only.
abbrev number : Option Json → Option ℕ
number (some (nat n)) = some n
number _ = none

abbrev build : ℕ → Option ℕ → Option ℕ → Option RateLimitEntry
build now (some c) (some r) = if leb r now then none else some (record { count = c; reset_at = r })
build now _ _ = none

-- `none` is no text, or one that is not JSON.
unfoldable pub parse_rate_limit_entry : Option Json → ℕ → Option RateLimitEntry
parse_rate_limit_entry (some (obj fs)) now =
    build now (number (prop (js "count") fs)) (number (prop (js "resetAt") fs))
parse_rate_limit_entry _ now = none

unfoldable pub consume_local_fallback :
    JsString → ℕ → ℕ → JsMap RateLimitEntry → RateLimitEntry × JsMap RateLimitEntry
consume_local_fallback key window_ms now m = taken (lookup key evicted)
  where
    evicted : JsMap RateLimitEntry
    evicted = evict_expired_fallback_entries now m

    stored : RateLimitEntry → RateLimitEntry × JsMap RateLimitEntry
    stored entry = (entry, enforce_fallback_lru_cap (touch_fallback_entry key entry evicted))

    created : RateLimitEntry
    created = record { count = 1; reset_at = now + window_ms }

    taken : Option RateLimitEntry → RateLimitEntry × JsMap RateLimitEntry
    taken none = stored created
    taken (some existing) =
        if leb existing.reset_at now
        then stored created
        else stored (record existing { count = existing.count + 1 })

-- The entry after one more request, given the current one.
unfoldable pub next_entry : Option RateLimitEntry → ℕ → ℕ → RateLimitEntry
next_entry none window_ms now = record { count = 1; reset_at = now + window_ms }
next_entry (some current) window_ms now = record current { count = current.count + 1 }

unfoldable pub expiration_ttl : RateLimitEntry → ℕ → ℕ
expiration_ttl next now = max 60 (ceil_seconds (next.reset_at - now) + 5)

-- How the calls of the store go: no store, a throwing `get`, a throwing `put`, or neither.
pub data Store : Type 0 where
  absent get_throws put_throws available : Store

pub record Limiter : Type 0 where
  pub kv : JsMap (Entry Json)
  pub fallback : JsMap RateLimitEntry

-- Requests that are answered from the map of the process.
unfoldable pub consume_fallback : JsString → ℕ → ℕ → Limiter → RateLimitEntry × Limiter
consume_fallback key window_ms now s =
    let r = consume_local_fallback key window_ms now s.fallback in
    (r.0, record s { fallback = r.1 })

-- `consumeDistributed`, whose `get` succeeds: the entry, and the store if `put` succeeds too.
unfoldable pub consume_distributed :
    JsString → ℕ → ℕ → JsMap (Entry Json) → RateLimitEntry × JsMap (Entry Json)
consume_distributed key window_ms now kv =
    (next, MemoryKv.put now key (stringify next) (ttl_of (expiration_ttl next now)) got.1)
  where
    got : Option Json × JsMap (Entry Json)
    got = MemoryKv.get now key kv

    next : RateLimitEntry
    next = next_entry (parse_rate_limit_entry got.0 now) window_ms now

-- `storage_key` of the key is `getRateLimitStorageKey`.
module _ (storage_key : JsString → JsString) where
  unfoldable pub consume_rate_limit : Store → JsString → ℕ → ℕ → Limiter → RateLimitEntry × Limiter
  consume_rate_limit absent key window_ms now s = consume_fallback key window_ms now s
  consume_rate_limit get_throws key window_ms now s = consume_fallback key window_ms now s
  consume_rate_limit put_throws key window_ms now s =
      consume_fallback key window_ms now
        (record s { kv = (MemoryKv.get now (storage_key key) s.kv).1 })
  consume_rate_limit available key window_ms now s =
      let r = consume_distributed (storage_key key) window_ms now s.kv in
      (r.0, record s { kv = r.1 })

pub record RateLimitConfig : Type 0 where
  pub window_ms : ℕ
  pub max_requests : ℕ
  pub key_prefix : Option JsString

unfoldable pub build_key : Option JsString → JsString → JsString
build_key prefix client_id = get_or_else prefix [] ++ client_id

abbrev pub kv_rate_limit_exempt_get_paths : List JsString
kv_rate_limit_exempt_get_paths =
    js "/api/notifications/unread/count" ∷ js "/api/dm/unread/count" ∷ []

-- What the middleware reads of a request: `actor` is the id of the logged-in one.
pub record Request : Type 0 where
  pub method : JsString
  pub path : JsString
  pub actor : Option JsString
  pub ip : JsString

pub record Headers : Type 0 where
  pub limit : ℕ
  pub remaining : ℕ
  pub reset : ℕ

pub data Outcome : Type 0 where
  passed : Option Headers → Outcome  -- `next()`, with the headers that are set before
  too_many_requests : Headers → ℕ → Outcome  -- 429, with `Retry-After`

unfoldable pub is_exempt : Request → Bool
is_exempt c =
    (str_eq c.method (js "GET") || str_eq c.method (js "HEAD"))
    && any (str_eq c.path) kv_rate_limit_exempt_get_paths

-- `actor?.ap_id || ip`
unfoldable pub client_id : Request → JsString
client_id c = named c.actor
  where
    named : Option JsString → JsString
    named none = c.ip
    named (some []) = c.ip
    named (some (x ∷ xs)) = x ∷ xs

-- The response to a request that was counted.
unfoldable pub respond : RateLimitConfig → ℕ → RateLimitEntry → Outcome
respond config now entry =
    if ltb config.max_requests entry.count
    then too_many_requests headers (ceil_seconds (entry.reset_at - now))
    else passed (some headers)
  where
    headers : Headers
    headers = record {
      limit = config.max_requests;
      remaining = config.max_requests - entry.count;
      reset = ceil_seconds entry.reset_at;
    }

module _ (storage_key : JsString → JsString) where
  unfoldable pub rate_limit : RateLimitConfig → Store → Request → ℕ → Limiter → Outcome × Limiter
  rate_limit config store c now s =
      if is_exempt c then (passed none, s) else (respond config now consumed.0, consumed.1)
    where
      consumed : RateLimitEntry × Limiter
      consumed =
          consume_rate_limit storage_key store (build_key config.key_prefix (client_id c))
            config.window_ms now s

pub record Consumed : Type 0 where
  pub entry : RateLimitEntry
  pub limited : Bool
  pub retry_after : ℕ

module _ (storage_key : JsString → JsString) where
  unfoldable pub consume_rate_limit_programmatic :
      Store → RateLimitConfig → JsString → ℕ → Limiter → Consumed × Limiter
  consume_rate_limit_programmatic store config bucket_key now s = (told consumed.0, consumed.1)
    where
      consumed : RateLimitEntry × Limiter
      consumed =
          consume_rate_limit storage_key store (build_key config.key_prefix bucket_key)
            config.window_ms now s

      told : RateLimitEntry → Consumed
      told entry = record {
        entry = entry;
        limited = ltb config.max_requests entry.count;
        retry_after = ceil_seconds (entry.reset_at - now);
      }

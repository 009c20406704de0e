-- ===== src/Limits/RateLimit/Counters.antt =====
-- What the two stores of src/backend/middleware/rate-limit.ts have in common: a request of a key
-- reads the entry of the key, if its window is not over, and leaves it counted once more.
use yurucommu_core.Base.{
  ℕ, ◌+◌, ◌*◌, ◌/◌, ◌<◌, ◌≡◌, refl, Option, none, some, JsString, JsMap, ltb, ltb→lt, Bool-cases,
  inl, inr, arith, str_eq, str_eq_refl,
}
use yurucommu_core.Base.Json.{Json, prop}
use yurucommu_core.Runtime.MemoryKv
use yurucommu_core.Runtime.MemoryKv.{Entry}
use yurucommu_core.Runtime.MemoryKv.Laws.{get-put}
use yurucommu_core.Limits.RateLimit.{
  RateLimitEntry, stringify, parse_rate_limit_entry, next_entry, expiration_ttl,
  consume_local_fallback, consume_distributed, Store, absent, get_throws, put_throws, available,
  Limiter, consume_fallback, consume_rate_limit,
}
use yurucommu_core.Limits.RateLimit.Fallback.{
  live, found, consume_local_fallback-bounded, consume_local_fallback_lem,
}

-- A store of entries as one key sees it: `current` is the entry that a request would find.
pub record Counter {S : Type 0} (window_ms : ℕ) (consume : ℕ → S → RateLimitEntry × S)
    (current : ℕ → S → Option RateLimitEntry) : Type 0 where
  pub consumes :
      (now : ℕ) (s : S) → (consume now s).0 ≡ next_entry (live (current now s) now) window_ms now
  pub keeps :
      (now later : ℕ) (s : S)
      → current later (consume now s).1 ≡ live (some (consume now s).0) later

pub local-Counter :
    (key : JsString) (window_ms : ℕ)
    → Counter window_ms (consume_local_fallback key window_ms) (found key)
local-Counter key window_ms = record {
  consumes = λ now m. rw (consume_local_fallback_lem key window_ms now m) refl;
  keeps = λ now later m. (consume_local_fallback-bounded key window_ms now later m).1;
}

-- The stored entry of a key.
abbrev pub stored : JsString → ℕ → JsMap (Entry Json) → Option RateLimitEntry
stored key now kv = parse_rate_limit_entry (MemoryKv.get now key kv).0 now

parse-stringify :
    (e : RateLimitEntry) (now : ℕ)
    → parse_rate_limit_entry (some (stringify e)) now ≡ live (some e) now
unfolding parse_rate_limit_entry stringify prop str_eq live
parse-stringify e now = ground arith

parse_live :
    (o : Option Json) (now : ℕ)
    → live (parse_rate_limit_entry o now) now ≡ parse_rate_limit_entry o now
unfolding parse_rate_limit_entry live
parse_live o now = ground arith

-- The store keeps an entry for longer than its window.
kept_until_reset :
    (e : RateLimitEntry) (t now : ℕ)
    → (t / 1000 + expiration_ttl e t) * 1000 < now
    → live (some e) now ≡ none
unfolding expiration_ttl live
kept_until_reset e t now late = ground arith

expiration_ttl_pos : (e : RateLimitEntry) (t : ℕ) → 0 < expiration_ttl e t
unfolding expiration_ttl
expiration_ttl_pos e t = ground arith

stored-put :
    (key : JsString) (e : RateLimitEntry) (t later : ℕ) (kv : JsMap (Entry Json))
    → stored key later (MemoryKv.put t key (stringify e) (MemoryKv.ttl_of (expiration_ttl e t)) kv)
      ≡ live (some e) later
unfolding parse_rate_limit_entry
stored-put key e t later kv =
    let got =
      get-put t later (expiration_ttl e t) key key (stringify e) kv (expiration_ttl_pos e t) in
    elim (Bool-cases (ltb ((t / 1000 + expiration_ttl e t) * 1000) later)) [
      | inl late ↦
          rw (got, str_eq_refl key, late, kept_until_reset e t later (ltb→lt _ _ late)) refl
      | inr there ↦ rw (got, str_eq_refl key, there) (parse-stringify e later)
    ]

pub distributed-Counter :
    (key : JsString) (window_ms : ℕ)
    → Counter window_ms (consume_distributed key window_ms) (stored key)
unfolding consume_distributed parse_rate_limit_entry
distributed-Counter key window_ms = record {
  consumes = λ now kv. rw (parse_live (MemoryKv.get now key kv).0 now) refl;
  keeps = λ now later kv. stored-put key _ now later (MemoryKv.get now key kv).1;
}

module _ (storage_key : JsString → JsString) (key : JsString) where
  -- The entry that a request finds, in the store or in the map that it is answered from.
  abbrev pub current_of : Store → ℕ → Limiter → Option RateLimitEntry
  current_of available now s = stored (storage_key key) now s.kv
  current_of absent now s = found key now s.fallback
  current_of get_throws now s = found key now s.fallback
  current_of put_throws now s = found key now s.fallback

  pub limiter-Counter :
      (store : Store) (window_ms : ℕ)
      → Counter window_ms (consume_rate_limit storage_key store key window_ms) (current_of store)
  unfolding consume_rate_limit consume_fallback
  limiter-Counter available window_ms =
      let c = distributed-Counter (storage_key key) window_ms in
      record {
        consumes = λ now s. c.consumes now s.kv;
        keeps = λ now later s. c.keeps now later s.kv;
      }
  limiter-Counter absent window_ms =
      let c = local-Counter key window_ms in
      record {
        consumes = λ now s. c.consumes now s.fallback;
        keeps = λ now later s. c.keeps now later s.fallback;
      }
  limiter-Counter get_throws window_ms =
      let c = local-Counter key window_ms in
      record {
        consumes = λ now s. c.consumes now s.fallback;
        keeps = λ now later s. c.keeps now later s.fallback;
      }
  limiter-Counter put_throws window_ms =
      let c = local-Counter key window_ms in
      record {
        consumes = λ now s. c.consumes now s.fallback;
        keeps = λ now later s. c.keeps now later s.fallback;
      }

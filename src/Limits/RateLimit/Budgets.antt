-- ===== src/Limits/RateLimit/Budgets.antt =====
-- The requests of one client in one window, of src/backend/middleware/rate-limit.ts.
use yurucommu_core.Base.{
  ℕ, ◌+◌, ◌-◌, ◌<◌, ◌≡◌, ◌∙◌, ap, refl, false, Option, none, some, List, [], ◌∷◌, JsString, All,
  if◌then◌else◌, leb, ceil_seconds, arith,
}
use yurucommu_core.Limits.RateLimit.{
  RateLimitEntry, RateLimitConfig, Request, Outcome, passed, too_many_requests, Headers, Store,
  Limiter, is_exempt, client_id, build_key, respond, next_entry, rate_limit,
}
use yurucommu_core.Limits.RateLimit.Fallback.{live}
use yurucommu_core.Limits.RateLimit.Counters.{current_of, limiter-Counter}

module _ (storage_key : JsString → JsString) (config : RateLimitConfig) (store : Store)
    (c : Request) where
  -- The same request at the given times.
  unfoldable pub responses : List ℕ → Limiter → List Outcome
  responses [] s = []
  responses (t ∷ ts) s = let r = rate_limit storage_key config store c t s in r.0 ∷ responses ts r.1

-- The headers of the `n`-th request of a window that is reset at `reset_at`.
abbrev pub nth_headers : RateLimitConfig → ℕ → ℕ → Headers
nth_headers config reset_at n = record {
  limit = config.max_requests;
  remaining = config.max_requests - n;
  reset = ceil_seconds reset_at;
}

-- A window's requests from the `n`-th on: let through up to the maximum, with the rest of the
-- budget, and refused beyond it until the window is reset.
abbrev pub expected : RateLimitConfig → ℕ → ℕ → List ℕ → List Outcome
expected config reset_at n [] = []
expected config reset_at n (t ∷ ts) =
    (if leb n config.max_requests
      then passed (some (nth_headers config reset_at n))
      else too_many_requests (nth_headers config reset_at n) (ceil_seconds (reset_at - t)))
    ∷ expected config reset_at (n + 1) ts

respond_nth :
    (config : RateLimitConfig) (t n reset_at : ℕ)
    → respond config t (record { count = n; reset_at = reset_at }) ≡ (
        if leb n config.max_requests
        then passed (some (nth_headers config reset_at n))
        else too_many_requests (nth_headers config reset_at n) (ceil_seconds (reset_at - t)))
unfolding respond
respond_nth config t n reset_at = ground arith

-- The key under which a request is counted.
abbrev pub key_of : RateLimitConfig → Request → JsString
key_of config c = build_key config.key_prefix (client_id c)

found_live :
    (n reset_at t window_ms : ℕ) {o : Option RateLimitEntry}
    → t < reset_at
    → o ≡ live (some (record { count = n; reset_at = reset_at })) t
    → next_entry (live o t) window_ms t ≡ record { count = n + 1; reset_at = reset_at }
unfolding live next_entry
found_live n reset_at t window_ms {o} lt e = rw e (ground arith)

module _ (storage_key : JsString → JsString) (config : RateLimitConfig) (store : Store)
    (c : Request) where
  one_response :
      (t : ℕ) (s : Limiter) (e : RateLimitEntry)
      → is_exempt c ≡ false
      → next_entry (live (current_of storage_key (key_of config c) store t s) t) config.window_ms t
        ≡ e
      → ((rate_limit storage_key config store c t s).0 ≡ respond config t e)
        × ((u : ℕ)
            → current_of storage_key
                (key_of config c)
                store
                u
                (rate_limit storage_key config store c t s).1
              ≡ live (some e) u)
  unfolding rate_limit
  one_response t s e counts h =
      let counter = limiter-Counter storage_key (key_of config c) store config.window_ms in
      let consumed = counter.consumes t s ∙ h in
      rw counts (rw consumed refl, λ u. counter.keeps t u s ∙ ap (λ x. live (some x) u) consumed)

  later_responses :
      (ts : List ℕ) (s : Limiter) (n reset_at : ℕ)
      → is_exempt c ≡ false
      → All (λ t. t < reset_at) ts
      → ((t : ℕ)
          → current_of storage_key (key_of config c) store t s
            ≡ live (some (record { count = n; reset_at = reset_at })) t)
      → responses storage_key config store c ts s ≡ expected config reset_at (n + 1) ts
  unfolding responses
  later_responses [] s n reset_at counts h e = refl
  later_responses (t ∷ ts) s n reset_at counts (lt, h) e =
      let one =
        one_response t s (record { count = n + 1; reset_at = reset_at }) counts
          (found_live n reset_at t _ lt (e t)) in
      rw
        (
          one.0,
          respond_nth config t (n + 1) reset_at,
          later_responses ts (rate_limit storage_key config store c t s).1 (n + 1) reset_at counts h
              one.1,
        )
        refl

  -- Where a request that is not exempt finds no entry of its client, the same request, at that
  -- time and at any times before the window is over that it begins, is let through up to the
  -- maximum of the limit, with the rest of the budget in its headers, and refused beyond it with
  -- the time until the window is reset; this holds for the store and for the map of the process
  -- alike.
  pub window_budget :
      (t : ℕ) (ts : List ℕ) (s : Limiter)
      → is_exempt c ≡ false
      → current_of storage_key (key_of config c) store t s ≡ none
      → All (λ u. u < t + config.window_ms) ts
      → responses storage_key config store c (t ∷ ts) s
        ≡ expected config (t + config.window_ms) 1 (t ∷ ts)
  unfolding responses live next_entry
  window_budget t ts s counts new inside =
      let one =
        one_response t s (record { count = 1; reset_at = t + config.window_ms }) counts
          (rw new refl) in
      rw
        (
          one.0,
          respond_nth config t 1 (t + config.window_ms),
          later_responses ts (rate_limit storage_key config store c t s).1 1 (t + config.window_ms)
              counts inside one.1,
        )
        refl

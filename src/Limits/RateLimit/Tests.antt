-- ===== src/Limits/RateLimit/Tests.antt =====
-- The rate limiter at concrete inputs.
use yurucommu_core.Base.{◌≡◌, refl, none, some, [], ◌∷◌, JsMap, js, arith, lookup, str_eq}
use yurucommu_core.Runtime.MemoryKv
use yurucommu_core.Limits.RateLimit.{
  absent, evict_expired_fallback_entries, unexpired, enforce_fallback_lru_cap, RateLimitEntry,
  RateLimitConfig, Request, Limiter, available, is_exempt, parse_rate_limit_entry,
}
use yurucommu_core.Limits.RateLimit.Configs.{rate_limit_configs, auth}
use yurucommu_core.Limits.RateLimit.Budgets.{responses, expected, window_budget}

abbrev two_a_minute : RateLimitConfig
two_a_minute = record { window_ms = 60000; max_requests = 2; key_prefix = some (js "auth:") }

abbrev login : Request
login = record {
  method = js "POST";
  path = js "/api/auth/login";
  actor = none;
  ip = js "192.0.2.7";
}

abbrev idle_limiter : Limiter
idle_limiter = record { kv = []; fallback = [] }

window_budget_example :
    responses (λ k. k) two_a_minute available login (5000 ∷ 5001 ∷ 5002 ∷ 64999 ∷ []) idle_limiter
    ≡ expected two_a_minute 65000 1 (5000 ∷ 5001 ∷ 5002 ∷ 64999 ∷ [])
unfolding is_exempt parse_rate_limit_entry MemoryKv.get lookup str_eq
window_budget_example =
    window_budget (λ k. k) two_a_minute available login 5000 (5001 ∷ 5002 ∷ 64999 ∷ []) idle_limiter
      refl refl (omega arith, (omega arith, (omega arith, tt)))

-- The budget of the credential endpoints, by the map of the process.
login_budget :
    responses (λ k. k) (rate_limit_configs auth) absent login (5000 ∷ 5001 ∷ []) idle_limiter
    ≡ expected (rate_limit_configs auth) 65000 1 (5000 ∷ 5001 ∷ [])
unfolding is_exempt lookup str_eq evict_expired_fallback_entries unexpired enforce_fallback_lru_cap
login_budget =
    window_budget (λ k. k) (rate_limit_configs auth) absent login 5000 (5001 ∷ []) idle_limiter refl
      refl (omega arith, tt)

abbrev one_entry : JsMap RateLimitEntry
one_entry = (js "a", record { count = 7; reset_at = 100 }) ∷ []

-- ===== src/Limits/RateLimit/Configs.antt =====
-- `RateLimitConfigs` of src/backend/middleware/rate-limit.ts.
use yurucommu_core.Base.{ℕ, Option, none, some, JsString, js}
use yurucommu_core.Limits.RateLimit.{RateLimitConfig}

-- The names of `RateLimitConfigs`.
pub data RateLimitName : Type 0 where
  general auth post_create search media_upload dm community_message story_write inbox :
      RateLimitName
  inbox_domain federation_discovery : RateLimitName

abbrev pub rate_limit_window_ms : ℕ
rate_limit_window_ms = 60000

abbrev per_window : ℕ → Option JsString → RateLimitConfig
per_window max_requests key_prefix = record {
  window_ms = rate_limit_window_ms;
  max_requests = max_requests;
  key_prefix = key_prefix;
}

abbrev pub rate_limit_configs : RateLimitName → RateLimitConfig
rate_limit_configs general = per_window 1000 none
rate_limit_configs auth = per_window 20 (some (js "auth:"))
rate_limit_configs post_create = per_window 200 (some (js "post:"))
rate_limit_configs search = per_window 3000 (some (js "search:"))
rate_limit_configs media_upload = per_window 2000 (some (js "media:"))
rate_limit_configs dm = per_window 600 (some (js "dm:"))
rate_limit_configs community_message = per_window 600 (some (js "community-msg:"))
rate_limit_configs story_write = per_window 200 (some (js "story-write:"))
rate_limit_configs inbox = per_window 1000 (some (js "inbox:"))
rate_limit_configs inbox_domain = per_window 1000 (some (js "inbox-domain:"))
rate_limit_configs federation_discovery = per_window 60 (some (js "fed-disc:"))

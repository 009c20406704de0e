-- ===== src/Delivery/Jobs/Backoff.antt =====
-- The delays of src/backend/lib/delivery/transformers.ts and the permanent failures.
use yurucommu_core.Base.{ℕ, suc, ◌*◌, ◌^◌, ◌≤◌, ◌<◌, some, ◌≡◌, get_elem?, arith}
use yurucommu_core.Delivery.Jobs.{compute_retry_delay_seconds, backoff_series_seconds}

-- Before attempt `i + 1`, for an `i` with a delay `base` in the series and a random number below 1,
-- the delay lies within a fifth of `base`.
pub compute_retry_delay_seconds-jitter :
    (random i base : ℕ)
    → random < 2 ^ 53
    → get_elem? backoff_series_seconds i ≡ some base
    → (4 * base ≤ 5 * compute_retry_delay_seconds random (suc i))
      × (5 * compute_retry_delay_seconds random (suc i) ≤ 6 * base)
unfolding compute_retry_delay_seconds
compute_retry_delay_seconds-jitter random i base h k = ground arith

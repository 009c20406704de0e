-- ===== src/Delivery/Jobs.antt =====
-- The rows of the delivery tables (src/db/schema/messaging.ts), the messages of the delivery
-- queues (src/backend/lib/delivery/types.ts) and the helpers of transformers.ts and queue.ts.
-- A time is a number of milliseconds: every writer stores `toISOString()`, whose texts are ordered
-- like the instants that they spell.
pub mod Backoff
use yurucommu_core.Base.{
  ℕ, ◌+◌, ◌*◌, ◌-◌, ◌/◌, ◌^◌, min, max, Bool, true, false, not, ◌&&◌, ◌||◌, Option, none, some,
  List, [], ◌∷◌, JsString, js, JsMap, if◌then◌else◌, ltb, leb, ◌==◌, get_elem?, get_or_else, length,
  any, str_eq,
}
use yurucommu_core.Ssrf.Urls.{Url, is_safe_remote_url}

pub data JobStatus : Type 0 where
  pending processing retry_wait delivered dead_letter failed : JobStatus

-- A row of `delivery_queue`, without its key.
pub record Job : Type 0 where
  pub activity_ap_id : JsString
  pub inbox_url : JsString
  pub status : JobStatus
  pub attempts : ℕ
  pub reconcile_attempt : ℕ
  pub dlq_pending : ℕ
  pub processing_token : Option JsString
  pub last_attempt_at : Option ℕ
  pub processing_started_at : Option ℕ
  pub next_attempt_at : ℕ
  pub delivered_at : Option ℕ
  pub error : Option JsString
  pub recipient_attribution_complete : ℕ
  pub created_at : ℕ

unfoldable pub status_eq : JobStatus → JobStatus → Bool
status_eq pending pending = true
status_eq processing processing = true
status_eq retry_wait retry_wait = true
status_eq delivered delivered = true
status_eq dead_letter dead_letter = true
status_eq failed failed = true
status_eq _ _ = false

-- `TERMINAL_JOB_STATUSES.includes(status)`
unfoldable pub is_terminal : JobStatus → Bool
is_terminal delivered = true
is_terminal dead_letter = true
is_terminal failed = true
is_terminal _ = false

-- `eq(deliveryQueue.processingToken, token)`, which a NULL does not satisfy
unfoldable pub token_is : JsString → Option JsString → Bool
token_is token none = false
token_is token (some t) = str_eq t token

pub data CommunityStage : Type 0 where
  local_members remote_members remote_followers : CommunityStage

-- The six kinds of message, with their optional fields.
pub data Body : Type 0 where
  fanout_followers : JsString → JsString → Option JsString → Body
  fanout_community :
      JsString → JsString → Option JsString → Option CommunityStage → Option JsString → Body
  resolve_actor : JsString → JsString → Option ℕ → Body
  deliver_endpoint : JsString → Option ℕ → Body
  reconcile_job : JsString → ℕ → Body
  notification_push : JsString → Body

pub record QueueMessage : Type 0 where
  pub auto_dlq_attempt : Option ℕ
  pub body : Body
  pub scheduled_at : ℕ

pub record DlqMessage : Type 0 where
  pub job_id : JsString
  pub activity_id : JsString
  pub endpoint : JsString
  pub attempts : ℕ
  pub last_error : Option JsString
  pub reconcile_attempt : Option ℕ
  pub dead_lettered_at : ℕ

-- What a producer is given: a message and its delay in seconds, or a dead letter.
pub data Sent : Type 0 where
  to_queue : QueueMessage → Option ℕ → Sent
  to_dlq : DlqMessage → Sent

abbrev pub backoff_series_seconds : List ℕ
backoff_series_seconds = 60 ∷ 120 ∷ 240 ∷ 480 ∷ 960 ∷ 1920 ∷ 3840 ∷ 7680 ∷ []

abbrev pub delivery_max_attempts : ℕ
delivery_max_attempts = length backoff_series_seconds

abbrev pub max_reconcile_attempts : ℕ
max_reconcile_attempts = 5

abbrev pub delivery_reconcile_delay_seconds : ℕ
delivery_reconcile_delay_seconds = 6 * 60 * 60

abbrev pub stale_processing_ms : ℕ
stale_processing_ms = 2 * 60 * 1000

-- `Math.random()` is `random / 2 ** 53`, and `Math.round(x)` the floor of `x + 1 / 2`.
unfoldable pub compute_retry_delay_seconds : ℕ → ℕ → ℕ
compute_retry_delay_seconds random next_attempt =
    let idx = min (next_attempt - 1) (length backoff_series_seconds - 1) in
    let base = get_or_else (get_elem? backoff_series_seconds idx) 0 in
    max 1 ((2 * (base * (8 * 2 ^ 53 + 4 * random)) + 10 * 2 ^ 53) / (20 * 2 ^ 53))

abbrev pub transient_delivery_4xx : List ℕ
transient_delivery_4xx = 401 ∷ 404 ∷ 408 ∷ 425 ∷ 429 ∷ []

unfoldable pub is_permanent_delivery_failure : Option ℕ → Bool
is_permanent_delivery_failure none = false
is_permanent_delivery_failure (some status) =
    leb 400 status && ltb status 500 && not (any (λ t. status == t) transient_delivery_4xx)

module _ (parse_url : JsString → Option Url) where
  unfoldable pub safe_endpoint_host : JsString → Option JsString
  safe_endpoint_host endpoint = judged (parse_url endpoint)
    where
      judged : Option Url → Option JsString
      judged none = none
      judged (some url) =
          if not (str_eq url.protocol (js "https:")) && not (str_eq url.protocol (js "http:"))
          then none
          else if is_safe_remote_url parse_url endpoint
          then some url.host
          else none

-- `reconcileAttempt > 0 ? { reconcileAttempt } : {}`
abbrev pub if_positive : ℕ → Option ℕ
if_positive n = if ltb 0 n then some n else none

unfoldable pub build_deliver_endpoint_message : ℕ → JsString → ℕ → QueueMessage
build_deliver_endpoint_message now job_id reconcile_attempt = record {
  auto_dlq_attempt = none;
  body = deliver_endpoint job_id (if_positive reconcile_attempt);
  scheduled_at = now;
}

unfoldable pub build_reconcile_job_message : ℕ → JsString → ℕ → QueueMessage
build_reconcile_job_message now job_id reconcile_attempt = record {
  auto_dlq_attempt = none;
  body = reconcile_job job_id reconcile_attempt;
  scheduled_at = now;
}

unfoldable pub build_resolve_actor_message : ℕ → JsString → JsString → ℕ → QueueMessage
build_resolve_actor_message now activity_id recipient attempts = record {
  auto_dlq_attempt = none;
  body = resolve_actor activity_id recipient (if_positive attempts);
  scheduled_at = now;
}

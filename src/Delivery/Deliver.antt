-- ===== src/Delivery/Deliver.antt =====
-- src/backend/lib/delivery/queue-delivery.ts: one delivery of an activity to an endpoint. What the
-- code reads of the outside (the clock, the random numbers, whether the key can sign the request,
-- the response) is a `Run`; `others` is
-- what the other workers do at the points where this one waits. The staging-only shadow probe,
-- which writes nothing, is left out.
use yurucommu_core.Base.{
  ℕ, ◌+◌, ◌*◌, Bool, false, not, ◌&&◌, ◌||◌, Option, none, some, List, ◌++◌, JsString, js, JsMap,
  lookup, str_eq, if◌then◌else◌, ltb, leb, ◌==◌, between, update_where, Throws,
}
use yurucommu_core.Ssrf.Urls.{is_empty}
use yurucommu_core.Ssrf.Text.{show_byte}
use yurucommu_core.Delivery.Jobs.{
  Job, processing, retry_wait, delivered, dead_letter, failed, Sent, status_eq, is_terminal,
  token_is, max_reconcile_attempts, delivery_reconcile_delay_seconds, stale_processing_ms,
}
use yurucommu_core.Delivery.Circuit.{Circuits, Gap}
use yurucommu_core.Delivery.Resolutions.{Resolutions}
use yurucommu_core.Delivery.Invalidate.{CachedActor}

pub record Activity : Type 0 where
  pub raw_json : JsString
  pub actor_ap_id : JsString

-- A signed POST.
pub record Post : Type 0 where
  pub endpoint : JsString
  pub key_id : JsString
  pub body : JsString

-- The tables that a delivery reads and writes, what was sent, and what was posted. The three
-- tables of keys have the private key of an actor, which may be empty.
pub record World : Type 0 where
  pub jobs : JsMap Job
  pub circuits : Circuits
  pub actor_cache : JsMap CachedActor
  pub resolutions : Resolutions
  pub activities : JsMap Activity
  pub actor_keys : JsMap JsString
  pub community_keys : JsMap JsString
  pub instance_keys : JsMap JsString
  pub sent : List Sent
  pub posts : List Post

-- A handler's result: `none` for a thrown error, `some tt` for an acknowledged message.
abbrev pub Handling : Type 0
Handling = Throws World (Unit {0})

-- The status of an HTTP response, or the message of the error that was thrown instead.
pub data Response : Type 0 where
  http : ℕ → Response
  no_response : JsString → Response

pub data Point : Type 0 where
  before_claim during_post after_increment : Point

pub record Run : Type 0 where
  pub queue_bound : Bool
  pub now_read : ℕ
  pub now_claim : ℕ
  pub now_settle : ℕ
  pub processing_token : JsString
  pub signs : Bool
  pub response : Response
  pub random : ℕ
  pub others : Point → World → World
  pub circuit_others : Gap → Circuits → Circuits

abbrev pub status_of : Response → Option ℕ
status_of (http status) = some status
status_of (no_response message) = none

-- `response?.ok`
abbrev pub is_ok : Response → Bool
is_ok (http status) = between 200 299 status
is_ok (no_response message) = false

unfoldable pub build_error_message : Response → JsString
build_error_message (http status) = js "HTTP " ++ show_byte status
build_error_message (no_response message) = message

abbrev nonempty : Option JsString → Option JsString
nonempty none = none
nonempty (some key) = if is_empty key then none else some key

-- The private key of an actor, a community or the instance, in this order.
unfoldable pub resolve_signing_actor : World → JsString → Option JsString
resolve_signing_actor w ap_id = from_actor (nonempty (lookup ap_id w.actor_keys))
  where
    from_community : Option JsString → Option JsString
    from_community (some key) = some key
    from_community none = nonempty (lookup ap_id w.instance_keys)

    from_actor : Option JsString → Option JsString
    from_actor (some key) = some key
    from_actor none = from_community (nonempty (lookup ap_id w.community_keys))

-- The columns that `failJob` sets.
unfoldable pub failed_with : ℕ → JsString → Job → Job
failed_with now error job = record job {
  status = failed;
  error = some error;
  last_attempt_at = some now;
  processing_started_at = none;
  processing_token = none;
  dlq_pending = 0;
}

-- The message is acknowledged in every case.
unfoldable pub fail_job : ℕ → JsString → JsString → (Job → Bool) → World → Handling
fail_job now job_id error fence w =
    (some tt, record w { jobs = update_where job_id fence (failed_with now error) w.jobs })

-- The WHERE clause of the claim.
unfoldable pub is_claimable : Run → Job → Job → Bool
is_claimable run read job =
    job.reconcile_attempt == read.reconcile_attempt
    && (str_eq job.inbox_url read.inbox_url
        && (str_eq job.activity_ap_id read.activity_ap_id
            && (leb job.next_attempt_at run.now_claim
                && ((not (status_eq job.status processing) && not (is_terminal job.status))
                    || (status_eq job.status processing
                        && started_before job.processing_started_at)))))
  where
    started_before : Option ℕ → Bool
    started_before none = false
    started_before (some started) = ltb (started + stale_processing_ms) run.now_claim

unfoldable pub claimed_by : Run → Job → Job
claimed_by run job = record job {
  status = processing;
  processing_started_at = some run.now_claim;
  processing_token = some run.processing_token;
}

-- `ownership`: the row is still the one that this worker claimed.
unfoldable pub is_owned : Run → ℕ → Job → Bool
is_owned run generation job =
    job.reconcile_attempt == generation
    && (status_eq job.status processing && token_is run.processing_token job.processing_token)

unfoldable pub delivered_at_time : ℕ → Job → Job
delivered_at_time now job = record job {
  status = delivered;
  delivered_at = some now;
  error = none;
  last_attempt_at = some now;
  processing_started_at = none;
  processing_token = none;
  dlq_pending = 0;
}

unfoldable pub counted : Job → Job
counted job = record job { attempts = job.attempts + 1 }

unfoldable pub dead_lettered : ℕ → ℕ → JsString → Job → Job
dead_lettered now generation error job = record job {
  status = dead_letter;
  error = some error;
  last_attempt_at = some now;
  processing_started_at = none;
  processing_token = none;
  dlq_pending = if ltb generation max_reconcile_attempts then 1 else 0;
  next_attempt_at = now + delivery_reconcile_delay_seconds * 1000;
}

unfoldable pub put_off : ℕ → ℕ → JsString → Job → Job
put_off now delay_seconds error job = record job {
  status = retry_wait;
  error = some error;
  last_attempt_at = some now;
  processing_started_at = none;
  processing_token = none;
  next_attempt_at = now + delay_seconds * 1000;
}

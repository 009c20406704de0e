-- ===== src/Delivery/Process.antt =====
-- src/backend/lib/delivery/queue-delivery.ts: `processDeliverEndpoint`, the whole handler, in the
-- phases that the code goes through. `none` is an error that the batch turns into a retry of the
-- message, `some tt` an acknowledged one.
pub mod Fences
use mathlib.Core.Option
use yurucommu_core.Base.{
  ℕ, ◌+◌, ◌*◌, ◌-◌, max, Bool, true, false, not, ◌&&◌, Option, none, some, List, [], ◌∷◌, ◌++◌,
  ◌||◌, str_eq, map, JsString, js, JsMap, lookup, if◌then◌else◌, ltb, leb, ◌==◌, ceil_seconds,
  get_or_else, update_where, affects, Throws, and_then,
}
use yurucommu_core.Delivery.Jobs.{
  Job, JobStatus, processing, dead_letter, Sent, to_queue, to_dlq, status_eq, is_terminal,
  build_deliver_endpoint_message, compute_retry_delay_seconds, is_permanent_delivery_failure,
  safe_endpoint_host, delivery_max_attempts, stale_processing_ms,
}
use yurucommu_core.Delivery.Circuit.{
  Circuits, Decision, allow, defer, check_circuit, record_circuit_success, record_circuit_failure,
}
use yurucommu_core.Delivery.Resolutions.{Outbox}
use yurucommu_core.Delivery.Invalidate.{Env, Invalidation, invalidate_endpoint}
use yurucommu_core.Delivery.Deliver.{
  World, Handling, Activity, Post, Run, before_claim, during_post, after_increment, status_of,
  is_ok, build_error_message, resolve_signing_actor, fail_job, failed_with, is_claimable,
  claimed_by, is_owned, delivered_at_time, counted, dead_lettered, put_off,
}

abbrev token_matches : Option JsString → Option JsString → Bool
token_matches none none = true
token_matches (some t) (some u) = str_eq t u
token_matches _ _ = false

module _ (env : Env) (run : Run) where
  -- A message is appended to what the producers were given, or the send throws.
  unfoldable pub send : Sent → World → Handling
  send s w = if env.accepts s then (some tt, record w { sent = w.sent ++ s ∷ [] }) else (none, w)

  -- The message that wakes this job again, after a delay.
  unfoldable pub send_again : ℕ → JsString → ℕ → ℕ → World → Handling
  send_again now job_id generation delay_seconds w =
      send
        (to_queue (build_deliver_endpoint_message now job_id generation)
          (if ltb 0 delay_seconds then some delay_seconds else none))
        w

  unfoldable pub invalidate : Job → World → World
  invalidate job w =
      let s = invalidate_endpoint env run.now_settle job.activity_ap_id job.inbox_url (record {
        actor_cache = w.actor_cache;
        outbox = record { rows = w.resolutions; sent = [] };
      }) in
      record w {
        actor_cache = s.actor_cache;
        resolutions = s.outbox.rows;
        sent = w.sent ++ map (λ m. to_queue m none) s.outbox.sent;
      }

  -- A retryable failure that was counted: the job waits, or is given up.
  unfoldable pub settle_counted : JsString → Job → ℕ → World → Handling
  settle_counted job_id job attempts w =
      let owned = is_owned run job.reconcile_attempt in
      let error = build_error_message run.response in
      let delay = compute_retry_delay_seconds run.random attempts in
      if leb delivery_max_attempts attempts
      then if affects job_id owned w.jobs
        then send
            (to_dlq (record {
              job_id = job_id;
              activity_id = job.activity_ap_id;
              endpoint = job.inbox_url;
              attempts = attempts;
              last_error = some error;
              reconcile_attempt = some job.reconcile_attempt;
              dead_lettered_at = run.now_settle;
            }))
            (record w {
              jobs =
                  update_where job_id owned
                    (dead_lettered run.now_settle job.reconcile_attempt error) w.jobs;
            })
        else (some tt, w)
      else send_again run.now_settle job_id job.reconcile_attempt delay (record w {
        jobs = update_where job_id owned (put_off run.now_settle delay error) w.jobs;
      })

  -- A retryable failure: it is counted if the row is still owned, and feeds the circuit.
  unfoldable pub settle_retryable : JsString → Job → World → Handling
  settle_retryable job_id job w =
      let owned = is_owned run job.reconcile_attempt in
      let jobs = update_where job_id owned counted w.jobs in
      let attempts = get_or_else (Option.map (λ (j : Job). j.attempts) (lookup job_id jobs)) 0 in
      if affects job_id owned w.jobs
      then circuit_fed attempts (record w { jobs = jobs })
          (record_circuit_failure run.circuit_others run.now_settle w.circuits job.inbox_url)
      else (some tt, w)
    where
      circuit_fed : ℕ → World → Option Circuits → Handling
      circuit_fed attempts w' none = (none, w')
      circuit_fed attempts w' (some circuits) =
          settle_counted job_id job attempts
            (run.others after_increment (record w' { circuits = circuits }))

  abbrev is_gone : Option ℕ → Bool
  is_gone none = false
  is_gone (some status) = status == 404 || status == 410

  -- The endpoint of a 404 or 410 is expired.
  unfoldable pub expire : Job → World → World
  expire job w = if is_gone (status_of run.response) then invalidate job w else w

  -- The POST has succeeded: an error of the bookkeeping is caught.
  unfoldable pub succeed : JsString → Job → World → Handling
  succeed job_id job w = (
    some tt,
    recorded
        (record w {
          jobs =
              update_where job_id (is_owned run job.reconcile_attempt)
                (delivered_at_time run.now_settle) w.jobs;
        })
        (record_circuit_success run.circuit_others w.circuits job.inbox_url),
  )
    where
      recorded : World → Option Circuits → World
      recorded w' none = w'
      recorded w' (some circuits) = record w' { circuits = circuits }

  -- The response is there; the row may have changed hands meanwhile.
  unfoldable pub settle : JsString → Job → World → Handling
  settle job_id job w =
      if is_ok run.response
      then succeed job_id job w
      else if is_permanent_delivery_failure (status_of run.response)
      then fail_job run.now_settle job_id (build_error_message run.response)
          (is_owned run job.reconcile_attempt) (expire job w)
      else settle_retryable job_id job (expire job w)

  -- The job is claimed: its activity is signed and posted.
  unfoldable pub post_activity : JsString → Job → World → Handling
  post_activity job_id job w = with_activity (lookup job.activity_ap_id w.activities)
    where
      owned : Job → Bool
      owned = is_owned run job.reconcile_attempt

      with_sender : Activity → Option JsString → Handling
      with_sender activity none =
          fail_job run.now_claim job_id (js "signing_actor_not_found") owned w
      with_sender activity (some key) =
          if run.signs
          then settle job_id job (
              run.others during_post (record w {
                posts =
                    w.posts
                    ++ record {
                      endpoint = job.inbox_url;
                      key_id = activity.actor_ap_id ++ js "#main-key";
                      body = activity.raw_json;
                    }
                      ∷ [];
              }))
          else (none, w)

      with_activity : Option Activity → Handling
      with_activity none = fail_job run.now_claim job_id (js "activity_not_found") owned w
      with_activity (some activity) =
          with_sender activity (resolve_signing_actor w activity.actor_ap_id)

  -- The claim, a compare-and-set on the row that was read.
  unfoldable pub claim : JsString → Job → World → Handling
  claim job_id job w =
      let claimable = is_claimable run job in
      if affects job_id claimable w.jobs
      then post_activity job_id job
          (record w { jobs = update_where job_id claimable (claimed_by run) w.jobs })
      else (some tt, w)

  -- A job that may be tried now: its endpoint and the circuit are looked at.
  unfoldable pub admit : JsString → Job → World → Handling
  admit job_id job w = with_host (safe_endpoint_host env.parse_url job.inbox_url)
    where
      unchanged : Job → Bool
      unchanged row =
          row.reconcile_attempt == job.reconcile_attempt
          && (status_eq row.status job.status
              && (str_eq row.inbox_url job.inbox_url
                  && (str_eq row.activity_ap_id job.activity_ap_id
                      && token_matches row.processing_token job.processing_token)))

      decided : Option (Decision × Circuits) → Handling
      decided none = (none, w)
      decided (some (defer seconds, circuits)) =
          send_again run.now_read job_id job.reconcile_attempt seconds
            (record w { circuits = circuits })
      decided (some (allow, circuits)) =
          claim job_id job (run.others before_claim (record w { circuits = circuits }))

      with_host : Option JsString → Handling
      with_host none = fail_job run.now_read job_id (js "invalid_endpoint") unchanged w
      with_host (some host) =
          decided (check_circuit run.circuit_others run.now_read w.circuits job.inbox_url)

  -- The row that was read: signal its dead letter again, put it off, or admit it.
  unfoldable pub consider : JsString → Job → World → Handling
  consider job_id job w =
      if is_terminal job.status
      then if status_eq job.status dead_letter && job.dlq_pending == 1
        then send
            (to_dlq (record {
              job_id = job_id;
              activity_id = job.activity_ap_id;
              endpoint = job.inbox_url;
              attempts = job.attempts;
              last_error = job.error;
              reconcile_attempt = some job.reconcile_attempt;
              dead_lettered_at = get_or_else job.last_attempt_at run.now_read;
            }))
            w
        else (some tt, w)
      else if ltb run.now_read job.next_attempt_at
      then send_again run.now_read job_id job.reconcile_attempt
          (max 1 (ceil_seconds (job.next_attempt_at - run.now_read))) w
      else if status_eq job.status processing && still_running job.processing_started_at
      then send_again run.now_read job_id job.reconcile_attempt 30 w
      else admit job_id job w
    where
      still_running : Option ℕ → Bool
      still_running none = false
      still_running (some started) = ltb (run.now_read - started) stale_processing_ms

  unfoldable pub process_deliver_endpoint : JsString → World → Handling
  process_deliver_endpoint job_id w =
      if run.queue_bound then selected (lookup job_id w.jobs) else (some tt, w)
    where
      selected : Option Job → Handling
      selected none = (some tt, w)
      selected (some job) = consider job_id job w

-- ===== src/Delivery/Reconcile.antt =====
-- src/backend/lib/delivery/queue-batching.ts and queue.ts: how a job of delivery is made, revived
-- after its dead letter, published again and finally purged.
use yurucommu_core.Base.{
  ℕ, zero, suc, ◌+◌, ◌*◌, ◌-◌, min, max, Bool, true, false, not, ◌&&◌, ◌||◌, Option, none, some,
  List, [], ◌∷◌, ◌++◌, map, JsString, JsMap, lookup, insert, str_eq, if◌then◌else◌, ltb, leb, ◌==◌,
  ceil_seconds, length, take, drop, any, is_some, get_or_else, update_where, affects, delete_where,
  select_where, order_by, order_by_key, Throws,
}
use yurucommu_core.Delivery.Jobs.{
  Job, JobStatus, pending, processing, retry_wait, delivered, dead_letter, QueueMessage, DlqMessage,
  Sent, to_queue, status_eq, is_terminal, build_deliver_endpoint_message,
  build_reconcile_job_message, max_reconcile_attempts, delivery_reconcile_delay_seconds,
  stale_processing_ms,
}

-- The table of the jobs, and what the main queue was given.
pub record Ledger : Type 0 where
  pub jobs : JsMap Job
  pub sent : List Sent

-- `none` is a thrown error, `some tt` an acknowledged message.
abbrev pub Reconciling : Type 0
Reconciling = Throws Ledger (Unit {0})

unfoldable pub revived : ℕ → ℕ → Job → Job
revived now reconcile_attempt job = record job {
  status = pending;
  reconcile_attempt = reconcile_attempt;
  dlq_pending = 0;
  attempts = 0;
  error = none;
  last_attempt_at = none;
  processing_started_at = none;
  processing_token = none;
  next_attempt_at = now;
}

-- The WHERE clause of the revival.
unfoldable pub is_revivable : ℕ → ℕ → Job → Bool
is_revivable now reconcile_attempt job =
    status_eq job.status dead_letter
    && (job.dlq_pending == 1
        && (job.reconcile_attempt == reconcile_attempt - 1 && leb job.next_attempt_at now))

module _ (accepts : Sent → Bool) where
  unfoldable pub send : Sent → Ledger → Reconciling
  send s w = if accepts s then (some tt, record w { sent = w.sent ++ s ∷ [] }) else (none, w)

  -- `others` is what the other workers do between the SELECT and the UPDATE. The message's own
  -- body goes out again if it is early.
  unfoldable pub process_reconcile_job :
      Bool → (JsMap Job → JsMap Job) → ℕ → QueueMessage → JsString → ℕ → Ledger → Reconciling
  process_reconcile_job queue_bound others now message job_id reconcile_attempt w =
      if not queue_bound
      then (some tt, w)
      else if ltb reconcile_attempt 1 || ltb max_reconcile_attempts reconcile_attempt
      then (some tt, w)
      else selected (lookup job_id w.jobs)
    where
      revive : JsMap Job → Reconciling
      revive jobs =
          let revivable = is_revivable now reconcile_attempt in
          if affects job_id revivable jobs
          then send (to_queue (build_deliver_endpoint_message now job_id reconcile_attempt) none)
              (record w {
                jobs = update_where job_id revivable (revived now reconcile_attempt) jobs;
              })
          else (some tt, record w { jobs = jobs })

      selected : Option Job → Reconciling
      selected none = (some tt, w)
      selected (some job) =
          if not (status_eq job.status dead_letter)
            || (not (job.dlq_pending == 1) || not (reconcile_attempt == job.reconcile_attempt + 1))
          then (some tt, w)
          else if ltb now job.next_attempt_at
          then send
              (to_queue message
                (some (max 1 (min (12 * 60 * 60) (ceil_seconds (job.next_attempt_at - now))))))
              w
          else revive (others w.jobs)

  -- A dead letter of the application: its job is to be revived after six hours, if its budget is
  -- not used up. `false` is a message that is to be delivered again after a minute.
  unfoldable pub handle_dlq_message : Bool → ℕ → DlqMessage → Ledger → Bool × Ledger
  handle_dlq_message queue_bound now body w =
      let reconcile_attempt = get_or_else body.reconcile_attempt 0 in
      if leb max_reconcile_attempts reconcile_attempt
      then (true, w)
      else if queue_bound
      then acknowledged (
          send
            (to_queue (build_reconcile_job_message now body.job_id (reconcile_attempt + 1))
              (some delivery_reconcile_delay_seconds))
            w)
      else (false, w)
    where
      acknowledged : Reconciling → Bool × Ledger
      acknowledged (none, w') = (false, w')
      acknowledged (some u, w') = (true, w')

-- The recipients that a job was made for, and the jobs.
pub record Recipients : Type 0 where
  pub recipients : List (JsString × JsString)
  pub jobs : JsMap Job

abbrev pub has_recipient : JsString → List (JsString × JsString) → Bool
has_recipient job_id recipients = any (λ e. str_eq e.0 job_id) recipients

-- `INSERT … ON CONFLICT DO NOTHING` of the recipients that the table's trigger retains.
unfoldable pub insert_recipients :
    (JsString → Bool)
    → JsString
    → List JsString
    → List (JsString × JsString)
    → List (JsString × JsString)
insert_recipients retains job_id [] table = table
insert_recipients retains job_id (r ∷ rs) table = insert_recipients retains job_id rs (
    if not (retains r) || any (λ e. str_eq e.0 job_id && str_eq e.1 r) table
    then table
    else table ++ (job_id, r) ∷ [])

abbrev pub fresh_job : ℕ → JsString → JsString → Job
fresh_job now activity_id endpoint = record {
  activity_ap_id = activity_id;
  inbox_url = endpoint;
  status = pending;
  attempts = 0;
  reconcile_attempt = 0;
  dlq_pending = 0;
  processing_token = none;
  last_attempt_at = none;
  processing_started_at = none;
  next_attempt_at = now;
  delivered_at = none;
  error = none;
  recipient_attribution_complete = 1;
  created_at = now;
}

unfoldable pub readdressed : JsString → JsString → Job → Job
readdressed activity_id endpoint job = record job {
  inbox_url = endpoint;
  activity_ap_id = activity_id;
}

-- `notInArray(status, ["processing", "delivered"])`
unfoldable pub is_readdressable : Job → Bool
is_readdressable job = not (status_eq job.status processing) && not (status_eq job.status delivered)

abbrev insert_new : JsString → Job → JsMap Job → JsMap Job
insert_new job_id job jobs = if is_some (lookup job_id jobs) then jobs else insert job_id job jobs

-- `retains` is the trigger that drops a recipient whose actor was deleted.
unfoldable pub upsert_delivery_job :
    (JsString → Bool)
    → ℕ
    → JsString
    → JsString
    → JsString
    → List JsString
    → Recipients
    → Bool × Recipients
upsert_delivery_job retains now job_id activity_id endpoint [] s = (false, s)
upsert_delivery_job retains now job_id activity_id endpoint (r ∷ rs) s =
    let recipients = insert_recipients retains job_id (r ∷ rs) s.recipients in
    let inserted = insert_new job_id (fresh_job now activity_id endpoint) s.jobs in
    let updated =
      update_where job_id (λ job. is_readdressable job && has_recipient job_id recipients)
        (readdressed activity_id endpoint) inserted in
    let jobs =
      delete_where
        (λ id job.
          str_eq id job_id
          && (job.recipient_attribution_complete == 1 && not (has_recipient job_id recipients)))
        updated in
    (is_some (lookup job_id jobs), record { recipients = recipients; jobs = jobs })

abbrev pub pending_delivery_scan_limit : ℕ
pending_delivery_scan_limit = 500

abbrev pub terminal_delivery_retention_ms : ℕ
terminal_delivery_retention_ms = 30 * 24 * 60 * 60 * 1000

abbrev pub terminal_delivery_purge_limit : ℕ
terminal_delivery_purge_limit = 50

unfoldable pub is_purgeable : ℕ → Job → Bool
is_purgeable now job =
    is_terminal job.status
    && (job.dlq_pending == 0 && leb (job.created_at + terminal_delivery_retention_ms) now)

unfoldable pub purge_terminal_delivery_endpoint_jobs : ℕ → JsMap Job → JsMap Job
purge_terminal_delivery_endpoint_jobs now jobs =
    let rows =
      take terminal_delivery_purge_limit
        (order_by (λ job. job.created_at) (select_where (λ id job. is_purgeable now job) jobs)) in
    delete_where (λ id job. is_some (lookup id rows) && is_purgeable now job) jobs

-- A dead letter whose revival is due.
unfoldable pub is_repair : ℕ → Job → Bool
is_repair now job =
    status_eq job.status dead_letter
    && (job.dlq_pending == 1
        && (ltb job.reconcile_attempt max_reconcile_attempts && leb job.next_attempt_at now))

-- A job whose message may have been lost.
unfoldable pub is_unattended : Bool → Bool → ℕ → Job → Bool
is_unattended include_deferred include_fresh_pending now job = by_status job.status
  where
    started_before : Option ℕ → Bool
    started_before none = false
    started_before (some started) = ltb (started + stale_processing_ms) now

    by_status : JobStatus → Bool
    by_status pending = include_fresh_pending || ltb (job.created_at + stale_processing_ms) now
    by_status retry_wait = include_deferred || leb job.next_attempt_at now
    by_status processing = started_before job.processing_started_at
    by_status _ = false

-- Batches of at most a hundred messages; `none` if one throws. The fuel is their number.
unfoldable pub send_batches :
    (List QueueMessage → Bool) → ℕ → List QueueMessage → List Sent → Throws (List Sent) (Unit {0})
send_batches accepts zero messages sent = (some tt, sent)
send_batches accepts (suc fuel) [] sent = (some tt, sent)
send_batches accepts (suc fuel) (m ∷ messages) sent =
    let batch = take 100 (m ∷ messages) in
    let rest =
      send_batches accepts fuel (drop 100 (m ∷ messages))
        (sent ++ map (λ b. to_queue b none) batch) in
    if accepts batch then rest else (none, sent)

unfoldable pub enqueue_pending_delivery_endpoint_jobs :
    (List QueueMessage → Bool) → Bool → Bool → Bool → ℕ → Ledger → Throws Ledger ℕ
enqueue_pending_delivery_endpoint_jobs accepts queue_bound include_deferred include_fresh now w =
    if queue_bound
    then published (send_batches accepts (length repairs) (map repair_message repairs) w.sent)
    else (some 0, record w { jobs = jobs })
  where
    jobs : JsMap Job
    jobs = purge_terminal_delivery_endpoint_jobs now w.jobs

    repairs : JsMap Job
    repairs = take 50 (
        order_by (λ job. job.next_attempt_at)
          (order_by_key (select_where (λ id job. is_repair now job) jobs)))

    rows : JsMap Job
    rows =
        take pending_delivery_scan_limit
          (select_where (λ id job. is_unattended include_deferred include_fresh now job) jobs)

    repair_message : JsString × Job → QueueMessage
    repair_message e = build_reconcile_job_message now e.0 (e.1.reconcile_attempt + 1)

    row_message : JsString × Job → QueueMessage
    row_message e = build_deliver_endpoint_message now e.0 e.1.reconcile_attempt

    counted : Throws (List Sent) (Unit {0}) → Throws Ledger ℕ
    counted (none, sent) = (none, record { jobs = jobs; sent = sent })
    counted (some u, sent) =
        (some (length rows + length repairs), record { jobs = jobs; sent = sent })

    published : Throws (List Sent) (Unit {0}) → Throws Ledger ℕ
    published (none, sent) = (none, record { jobs = jobs; sent = sent })
    published (some u, sent) =
        counted (send_batches accepts (length rows) (map row_message rows) sent)

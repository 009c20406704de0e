-- ===== src/Delivery/Resolutions.antt =====
-- src/backend/lib/delivery/resolution-outbox.ts: the durable rows by which a recipient's endpoint
-- is resolved. The digest, the random token and the queue's `sendBatch` are arguments; `none` is
-- a thrown error. Rows that are inserted, sent or swept keep the time of the call.
pub mod Ownership
pub mod Budget
pub mod Runs
pub mod Rounds
pub mod Sweeps
use mathlib.Core.Option
use yurucommu_core.Base.{
  ℕ, zero, suc, ◌+◌, ◌*◌, ◌-◌, ◌/◌, max, Bool, true, false, not, ◌&&◌, ◌||◌, Option, none, some,
  List, [], ◌∷◌, ◌++◌, map, JsString, js, JsMap, lookup, insert, str_eq, if◌then◌else◌, ltb, leb,
  ceil_seconds, length, take, drop, any, is_some, get_or_else, update_where, affects, update_all,
  delete_where, select_where, order_by,
}
use yurucommu_core.Delivery.Jobs.{QueueMessage, build_resolve_actor_message, token_is}

pub data ResolutionStatus : Type 0 where
  pending queued processing retry_wait resolved failed discarded : ResolutionStatus

-- A row of `delivery_resolutions`, without its key.
pub record Resolution : Type 0 where
  pub activity_ap_id : JsString
  pub recipient_actor_ap_id : JsString
  pub status : ResolutionStatus
  pub processing_token : Option JsString
  pub attempts : ℕ
  pub next_attempt_at : ℕ
  pub last_error : Option JsString
  pub created_at : ℕ
  pub updated_at : ℕ
  pub resolved_at : Option ℕ

abbrev pub Resolutions : Type 0
Resolutions = JsMap Resolution

pub record Intent : Type 0 where
  pub activity_id : JsString
  pub recipient_actor_ap_id : JsString

pub record Claim : Type 0 where
  pub id : JsString
  pub processing_token : JsString
  pub attempts : ℕ

pub data ClaimResult : Type 0 where
  missing terminal : ClaimResult
  deferred busy : ℕ → ClaimResult
  claimed : Claim → ClaimResult

-- The outbox and what its queue was given.
pub record Outbox : Type 0 where
  pub rows : Resolutions
  pub sent : List QueueMessage

abbrev pub outbox_scan_limit : ℕ
outbox_scan_limit = 50

abbrev pub stale_resolution_ms : ℕ
stale_resolution_ms = 2 * 60 * 1000

abbrev pub terminal_retention_ms : ℕ
terminal_retention_ms = 30 * 24 * 60 * 60 * 1000

abbrev pub terminal_purge_limit : ℕ
terminal_purge_limit = 50

abbrev pub max_resolve_attempts : ℕ
max_resolve_attempts = 8

-- `TERMINAL_STATUSES.includes(status)`
unfoldable pub is_terminal : ResolutionStatus → Bool
is_terminal resolved = true
is_terminal failed = true
is_terminal discarded = true
is_terminal _ = false

-- `inArray(status, ["pending", "retry_wait"])`
unfoldable pub is_waiting : ResolutionStatus → Bool
is_waiting pending = true
is_waiting retry_wait = true
is_waiting _ = false

-- `inArray(status, ["queued", "processing"])`
unfoldable pub is_out : ResolutionStatus → Bool
is_out queued = true
is_out processing = true
is_out _ = false

abbrev is_due : ℕ → Resolution → Bool
is_due now row = is_waiting row.status && leb row.next_attempt_at now

-- The WHERE clause of the claim.
unfoldable pub is_claimable : ℕ → Resolution → Bool
is_claimable now row = by_status row.status
  where
    by_status : ResolutionStatus → Bool
    by_status pending = true
    by_status queued = true
    by_status retry_wait = leb row.next_attempt_at now
    by_status processing = leb (row.updated_at + stale_resolution_ms) now
    by_status _ = false

unfoldable pub claimed_by : ℕ → JsString → Resolution → Resolution
claimed_by now token row = record row {
  status = processing;
  processing_token = some token;
  updated_at = now;
}

module _ (sha256_hex : JsString → JsString) where
  unfoldable pub compute_delivery_resolution_id : JsString → JsString → JsString
  compute_delivery_resolution_id activity_id recipient =
      sha256_hex (js "resolve_actor|" ++ (activity_id ++ (js "|" ++ recipient)))

  -- Intents by activity and recipient; a later one takes the place of an equal one.
  unfoldable pub unique_intents : List Intent → JsMap Intent → JsMap Intent
  unique_intents [] unique = unique
  unique_intents (intent ∷ intents) unique =
      unique_intents intents
        (insert (intent.activity_id ++ 0 ∷ intent.recipient_actor_ap_id) intent unique)

  abbrev with_id : JsMap Intent → JsMap Intent
  with_id [] = []
  with_id ((k, intent) ∷ m) =
      (compute_delivery_resolution_id intent.activity_id intent.recipient_actor_ap_id, intent)
      ∷ with_id m

  unfoldable pub materialize_intents : List Intent → JsMap Intent
  materialize_intents intents = with_id (unique_intents intents [])

  abbrev fresh_row : ℕ → Intent → Resolution
  fresh_row now intent = record {
    activity_ap_id = intent.activity_id;
    recipient_actor_ap_id = intent.recipient_actor_ap_id;
    status = pending;
    processing_token = none;
    attempts = 0;
    next_attempt_at = now;
    last_error = none;
    created_at = now;
    updated_at = now;
    resolved_at = none;
  }

  -- The unique index on the activity and the recipient.
  abbrev has_pair : Intent → Resolutions → Bool
  has_pair intent rows =
      any
        (λ e.
          str_eq e.1.activity_ap_id intent.activity_id
          && str_eq e.1.recipient_actor_ap_id intent.recipient_actor_ap_id)
        rows

  -- `insertMany(…, { conflict: "ignore" })`
  unfoldable pub insert_ignore : ℕ → JsMap Intent → Resolutions → Resolutions
  insert_ignore now [] rows = rows
  insert_ignore now ((id, intent) ∷ m) rows = insert_ignore now m (
      if is_some (lookup id rows) || has_pair intent rows
      then rows
      else insert id (fresh_row now intent) rows)

  unfoldable pub persist_delivery_resolution_jobs : ℕ → List Intent → Resolutions → Resolutions
  persist_delivery_resolution_jobs now intents rows =
      insert_ignore now (materialize_intents intents) rows

  abbrev messages_of : ℕ → Resolutions → List QueueMessage
  messages_of now rows =
      map
        (λ e.
          build_resolve_actor_message now e.1.activity_ap_id e.1.recipient_actor_ap_id e.1.attempts)
        rows

  abbrev queued_at : ℕ → Resolution → Resolution
  queued_at now row = record row { status = queued; processing_token = none; updated_at = now }

  module _ (accepts : List QueueMessage → Bool) where
    -- The rows are published first; the ones that still wait become queued.
    unfoldable pub send_rows : Resolutions → ℕ → Outbox → Option ℕ × Outbox
    send_rows [] now s = (some 0, s)
    send_rows (r ∷ rs) now s =
        let messages = messages_of now (r ∷ rs) in
        if accepts messages
        then (
          some (length (r ∷ rs)),
          record {
            rows =
                update_all (λ id row. is_some (lookup id (r ∷ rs)) && is_waiting row.status)
                  (queued_at now) s.rows;
            sent = s.sent ++ messages;
          },
        )
        else (none, s)

    -- A thrown error ends the loop.
    abbrev and_then : Option ℕ × Outbox → (ℕ → Outbox → Option ℕ × Outbox) → Option ℕ × Outbox
    and_then (none, s) k = (none, s)
    and_then (some n, s) k = k n s

    abbrev reopened : ℕ → Resolution → Resolution
    reopened now row = record row {
      status = pending;
      processing_token = none;
      attempts = 0;
      next_attempt_at = now;
      last_error = none;
      updated_at = now;
      resolved_at = none;
    }

    -- One chunk of at most `OUTBOX_SCAN_LIMIT` ids.
    unfoldable pub enqueue_chunk : ℕ → Bool → JsMap Intent → Outbox → Option ℕ × Outbox
    enqueue_chunk now reopen_terminal ids s =
        let rows =
          if reopen_terminal
          then update_all (λ id row. is_some (lookup id ids) && is_terminal row.status)
              (reopened now) s.rows
          else s.rows in
        send_rows (select_where (λ id row. is_some (lookup id ids) && is_due now row) rows) now
          (record s { rows = rows })

    -- The chunks from the front; the fuel is the number of the ids.
    unfoldable pub enqueue_chunks : ℕ → ℕ → Bool → JsMap Intent → ℕ → Outbox → Option ℕ × Outbox
    enqueue_chunks zero now reopen ids sent s = (some sent, s)
    enqueue_chunks (suc fuel) now reopen [] sent s = (some sent, s)
    enqueue_chunks (suc fuel) now reopen (i ∷ ids) sent s =
        and_then (enqueue_chunk now reopen (take outbox_scan_limit (i ∷ ids)) s)
          λ n s'. enqueue_chunks fuel now reopen (drop outbox_scan_limit (i ∷ ids)) (sent + n) s'

    -- `queue_bound` is false for an undefined queue.
    unfoldable pub enqueue_delivery_resolution_jobs :
        ℕ → Bool → List Intent → Bool → Outbox → Option ℕ × Outbox
    enqueue_delivery_resolution_jobs now queue_bound intents reopen_terminal s =
        let ids = materialize_intents intents in
        let persisted = record s { rows = persist_delivery_resolution_jobs now intents s.rows } in
        if queue_bound
        then enqueue_chunks (length ids) now reopen_terminal ids 0 persisted
        else (some 0, persisted)

    abbrev is_purgeable : ℕ → Resolution → Bool
    is_purgeable now row =
        is_terminal row.status && leb (row.updated_at + terminal_retention_ms) now

    unfoldable pub purge_terminal_delivery_resolution_jobs : ℕ → Resolutions → Resolutions
    purge_terminal_delivery_resolution_jobs now rows =
        let old =
          take terminal_purge_limit (
            order_by (λ row. row.updated_at)
              (select_where (λ id row. is_purgeable now row) rows)) in
        delete_where (λ id row. is_some (lookup id old) && is_purgeable now row) rows

    unfoldable pub enqueue_pending_delivery_resolution_jobs : ℕ → Bool → Outbox → Option ℕ × Outbox
    enqueue_pending_delivery_resolution_jobs now queue_bound s =
        let purged = purge_terminal_delivery_resolution_jobs now s.rows in
        let revived =
          update_all (λ id row. is_out row.status && leb (row.updated_at + stale_resolution_ms) now)
            (λ row. record row { status = pending; processing_token = none; updated_at = now })
            purged in
        if queue_bound
        then send_rows
            (take outbox_scan_limit
              (order_by (λ row. row.created_at) (select_where (λ id row. is_due now row) revived)))
            now (record s { rows = revived })
        else (some 0, record s { rows = purged })

  -- `others` is what the other workers do between the SELECT and the UPDATE.
  unfoldable pub claim_delivery_resolution_job :
      (Resolutions → Resolutions)
      → ℕ
      → JsString
      → JsString
      → JsString
      → Resolutions
      → ClaimResult × Resolutions
  claim_delivery_resolution_job others now token activity_id recipient rows =
      selected (lookup id rows)
    where
      id : JsString
      id = compute_delivery_resolution_id activity_id recipient

      attempt : Resolution → ClaimResult × Resolutions
      attempt row =
          if affects id (is_claimable now) (others rows)
          then (
            claimed (record { id = id; processing_token = token; attempts = row.attempts }),
            update_where id (is_claimable now) (claimed_by now token) (others rows),
          )
          else (busy 60, others rows)

      waits : ResolutionStatus → Bool
      waits retry_wait = true
      waits _ = false

      selected : Option Resolution → ClaimResult × Resolutions
      selected none = (missing, rows)
      selected (some row) =
          if is_terminal row.status
          then (terminal, rows)
          else if waits row.status && ltb now row.next_attempt_at
          then (deferred (max 1 (ceil_seconds (row.next_attempt_at - now))), rows)
          else attempt row

-- The WHERE clause of the three updates that end a claim.
unfoldable pub is_owned : Claim → Resolution → Bool
is_owned claim row = token_is claim.processing_token row.processing_token

pub record RetryResult : Type 0 where
  pub owned : Bool
  pub terminal : Bool

unfoldable pub retried : ℕ → Claim → JsString → ℕ → Resolution → Resolution
retried now claim error delay_seconds row =
    let attempts = claim.attempts + 1 in
    let over = leb max_resolve_attempts attempts in
    record row {
      status = if over then failed else retry_wait;
      processing_token = none;
      attempts = attempts;
      next_attempt_at = now + delay_seconds * 1000;
      last_error = some error;
      updated_at = now;
      resolved_at = if over then some now else none;
    }

unfoldable pub retry_delivery_resolution_job :
    ℕ → Claim → JsString → ℕ → Resolutions → RetryResult × Resolutions
retry_delivery_resolution_job now claim error delay_seconds rows = (
  record {
    owned = affects claim.id (is_owned claim) rows;
    terminal = leb max_resolve_attempts (claim.attempts + 1);
  },
  update_where claim.id (is_owned claim) (retried now claim error delay_seconds) rows,
)

unfoldable pub put_off : ℕ → JsString → ℕ → Resolution → Resolution
put_off now error delay_seconds row = record row {
  status = retry_wait;
  processing_token = none;
  next_attempt_at = now + delay_seconds * 1000;
  last_error = some error;
  updated_at = now;
  resolved_at = none;
}

unfoldable pub defer_delivery_resolution_job :
    ℕ → Claim → JsString → ℕ → Resolutions → Bool × Resolutions
defer_delivery_resolution_job now claim error delay_seconds rows = (
  affects claim.id (is_owned claim) rows,
  update_where claim.id (is_owned claim) (put_off now error delay_seconds) rows,
)

-- `status` is `resolved` or `discarded`.
unfoldable pub completed : ℕ → ResolutionStatus → Option JsString → Resolution → Resolution
completed now status reason row = record row {
  status = status;
  processing_token = none;
  last_error = reason;
  updated_at = now;
  resolved_at = some now;
}

unfoldable pub complete_delivery_resolution_job :
    ℕ → Claim → ResolutionStatus → Option JsString → Resolutions → Bool × Resolutions
complete_delivery_resolution_job now claim status reason rows = (
  affects claim.id (is_owned claim) rows,
  update_where claim.id (is_owned claim) (completed now status reason) rows,
)

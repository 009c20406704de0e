-- ===== src/Delivery/Resolutions/Budget.antt =====
-- The bounded number of attempts of a resolution row, along any sequence of the operations.
use yurucommu_core.Base.{
  ℕ, zero, suc, ◌+◌, ◌≤◌, ◌<◌, Bool, true, false, Option, none, some, List, [], ◌∷◌, ◌≡◌, ◌⊎◌, ◌&&◌,
  ◌||◌, inl, inr, refl, if-Holds, update_all, take, drop, length, arith, JsString, JsMap, lookup,
  insert, is_some, if◌then◌else◌, Option-cases, AllEntries, AllEntries-lookup, insert-AllEntries,
  update_where, update_where-AllEntries, update_all-AllEntries, delete_where-AllEntries,
}
use yurucommu_core.Delivery.Jobs.{QueueMessage, token_is}
use yurucommu_core.Delivery.Resolutions.{
  Resolution, Resolutions, ResolutionStatus, Claim, ClaimResult, Intent, Outbox, claimed, has_pair,
  fresh_row, messages_of, and_then, outbox_scan_limit, queued_at, reopened, is_terminal, is_waiting,
  is_out, is_claimable, claimed_by, is_owned, retried, put_off, completed, max_resolve_attempts,
  insert_ignore, persist_delivery_resolution_jobs, materialize_intents, send_rows, enqueue_chunk,
  enqueue_chunks, enqueue_delivery_resolution_jobs, purge_terminal_delivery_resolution_jobs,
  enqueue_pending_delivery_resolution_jobs, claim_delivery_resolution_job,
  retry_delivery_resolution_job, defer_delivery_resolution_job, complete_delivery_resolution_job,
  compute_delivery_resolution_id,
}

-- At most the maximal number of attempts, and fewer as long as the row is not at its end; a row at
-- its end has no owner.
abbrev pub IsWithinBudget : Resolution → Type 0
IsWithinBudget row =
    (row.attempts ≤ max_resolve_attempts)
    × (is_terminal row.status ≡ false → row.attempts < max_resolve_attempts)
    × (is_terminal row.status ≡ true → is_some row.processing_token ≡ false)

abbrev pub IsBounded : Resolutions → Type 0
IsBounded rows = AllEntries (λ k row. IsWithinBudget row) rows

waiting-live : (s : ResolutionStatus) → is_waiting s ≡ true → is_terminal s ≡ false
unfolding is_waiting is_terminal
waiting-live s h = ground arith

out-live : (s : ResolutionStatus) → is_out s ≡ true → is_terminal s ≡ false
unfolding is_out is_terminal
out-live s h = ground arith

claimable-live :
    (now : ℕ) (row : Resolution) → is_claimable now row ≡ true → is_terminal row.status ≡ false
unfolding is_claimable is_terminal
claimable-live now row h = ground arith

owned-some :
    (c : Claim) (row : Resolution) → is_owned c row ≡ true → is_some row.processing_token ≡ true
unfolding is_owned token_is
owned-some c row h = ground arith

module _ (sha256_hex : JsString → JsString) where
  insert_ignore-IsBounded :
      (now : ℕ) (m : JsMap Intent) (rows : Resolutions)
      → IsBounded rows
      → IsBounded (insert_ignore sha256_hex now m rows)
  unfolding insert_ignore is_terminal
  insert_ignore-IsBounded now [] rows h = h
  insert_ignore-IsBounded now ((id, intent) ∷ m) rows h = insert_ignore-IsBounded now m _ (
      if-Holds IsBounded (is_some (lookup id rows) || has_pair sha256_hex intent rows) rows
        (insert id (fresh_row sha256_hex now intent) rows) h
        (insert-AllEntries (λ k row. IsWithinBudget row) id (fresh_row sha256_hex now intent) rows
          (ground arith) h))

  pub persist-IsBounded :
      (now : ℕ) (intents : List Intent) (rows : Resolutions)
      → IsBounded rows
      → IsBounded (persist_delivery_resolution_jobs sha256_hex now intents rows)
  unfolding persist_delivery_resolution_jobs
  persist-IsBounded now intents rows h =
      insert_ignore-IsBounded now (materialize_intents sha256_hex intents) rows h

  module _ (accepts : List QueueMessage → Bool) where
    send_rows-IsBounded :
        (taken : Resolutions) (now : ℕ) (s : Outbox)
        → IsBounded s.rows
        → IsBounded (send_rows sha256_hex accepts taken now s).1.rows
    unfolding send_rows is_terminal
    send_rows-IsBounded [] now s h = h
    send_rows-IsBounded (r ∷ rs) now s h =
        if-Holds (λ (x : Option ℕ × Outbox). IsBounded x.1.rows)
          (accepts (messages_of sha256_hex now (r ∷ rs))) _ (none, s)
          (update_all-AllEntries (λ k row. IsWithinBudget row)
            (λ id row. is_some (lookup id (r ∷ rs)) && is_waiting row.status)
            (queued_at sha256_hex now) s.rows (λ k row p w. ground (arith, waiting-live row.status))
            h)
          h

    enqueue_chunk-IsBounded :
        (now : ℕ) (reopen : Bool) (ids : JsMap Intent) (s : Outbox)
        → IsBounded s.rows
        → IsBounded (enqueue_chunk sha256_hex accepts now reopen ids s).1.rows
    unfolding enqueue_chunk is_terminal
    enqueue_chunk-IsBounded now reopen ids s h =
        send_rows-IsBounded _ now (record s { rows = if reopen then opened else s.rows })
          (if-Holds IsBounded reopen opened s.rows
            (update_all-AllEntries (λ k row. IsWithinBudget row)
              (λ id row. is_some (lookup id ids) && is_terminal row.status)
              (reopened sha256_hex accepts now) s.rows (λ k row p w. ground arith) h)
            h)
      where
        opened : Resolutions
        opened =
            update_all (λ id row. is_some (lookup id ids) && is_terminal row.status)
              (reopened sha256_hex accepts now) s.rows

    enqueue_chunks-IsBounded :
        (fuel now : ℕ) (reopen : Bool) (ids : JsMap Intent) (sent : ℕ) (s : Outbox)
        → IsBounded s.rows
        → IsBounded (enqueue_chunks sha256_hex accepts fuel now reopen ids sent s).1.rows
    unfolding enqueue_chunks
    enqueue_chunks-IsBounded zero now reopen ids sent s h = h
    enqueue_chunks-IsBounded (suc fuel) now reopen [] sent s h = h
    enqueue_chunks-IsBounded (suc fuel) now reopen (i ∷ ids) sent s h =
        next (enqueue_chunk sha256_hex accepts now reopen (take outbox_scan_limit (i ∷ ids)) s)
          (λ n s' k.
            enqueue_chunks-IsBounded fuel now reopen (drop outbox_scan_limit (i ∷ ids)) (sent + n)
              s' k)
          (enqueue_chunk-IsBounded now reopen (take outbox_scan_limit (i ∷ ids)) s h)
      where
        next :
            (r : Option ℕ × Outbox)
            → ((n : ℕ) (s' : Outbox)
                → IsBounded s'.rows
                → IsBounded
                    (enqueue_chunks sha256_hex accepts fuel now reopen
                      (drop outbox_scan_limit (i ∷ ids))
                      (sent + n)
                      s').1.rows)
            → IsBounded r.1.rows
            → IsBounded
                (and_then sha256_hex accepts r λ n s'.
                  enqueue_chunks sha256_hex accepts fuel now reopen
                    (drop outbox_scan_limit (i ∷ ids))
                    (sent + n)
                    s').1.rows
        next (none, s') k g = g
        next (some n, s') k g = k n s' g

    pub enqueue-IsBounded :
        (now : ℕ) (queue_bound : Bool) (intents : List Intent) (reopen : Bool) (s : Outbox)
        → IsBounded s.rows
        → IsBounded
            (enqueue_delivery_resolution_jobs sha256_hex accepts now queue_bound intents reopen
              s).1.rows
    unfolding enqueue_delivery_resolution_jobs
    enqueue-IsBounded now queue_bound intents reopen s h =
        let k = persist-IsBounded now intents s.rows h in
        if-Holds (λ (x : Option ℕ × Outbox). IsBounded x.1.rows) queue_bound _ _
          (enqueue_chunks-IsBounded (length (materialize_intents sha256_hex intents)) now reopen
            (materialize_intents sha256_hex intents) 0
            (record s { rows = persist_delivery_resolution_jobs sha256_hex now intents s.rows }) k)
          k

    pub sweep-IsBounded :
        (now : ℕ) (queue_bound : Bool) (s : Outbox)
        → IsBounded s.rows
        → IsBounded
            (enqueue_pending_delivery_resolution_jobs sha256_hex accepts now queue_bound s).1.rows
    unfolding enqueue_pending_delivery_resolution_jobs purge_terminal_delivery_resolution_jobs
        is_terminal
    sweep-IsBounded now queue_bound s h =
        let purged = delete_where-AllEntries (λ k row. IsWithinBudget row) _ s.rows h in
        if-Holds (λ (x : Option ℕ × Outbox). IsBounded x.1.rows) queue_bound _ _
          (send_rows-IsBounded _ now _ (
            update_all-AllEntries (λ k row. IsWithinBudget row) _ _ _
              (λ k row p w. ground (arith, out-live row.status)) purged))
          purged

  -- A claim leaves the table as it was, as the others left it, or with the claimed row.
  claim-table :
      (others : Resolutions → Resolutions) (now : ℕ) (token activity_id recipient : JsString)
      (rows : Resolutions) {r : ClaimResult} {rows' : Resolutions}
      → claim_delivery_resolution_job sha256_hex others now token activity_id recipient rows
        ≡ (r, rows')
      → (rows' ≡ rows)
        ⊎ ((rows' ≡ others rows)
            ⊎ (rows'
                ≡ update_where
                    (compute_delivery_resolution_id sha256_hex activity_id recipient)
                    (is_claimable now)
                    (claimed_by now token)
                    (others rows)))
  unfolding claim_delivery_resolution_job
  claim-table others now token activity_id recipient rows e = ground arith

  pub claim-IsBounded :
      (others : Resolutions → Resolutions) (now : ℕ) (token activity_id recipient : JsString)
      (rows : Resolutions) {r : ClaimResult} {rows' : Resolutions}
      → IsBounded rows
      → IsBounded (others rows)
      → claim_delivery_resolution_job sha256_hex others now token activity_id recipient rows
        ≡ (r, rows')
      → IsBounded rows'
  unfolding claimed_by is_terminal
  claim-IsBounded others now token activity_id recipient rows h k e =
      elim (claim-table others now token activity_id recipient rows e) [
        | inl same ↦ rw same h
        | inr (inl lost) ↦ rw lost k
        | inr (inr won) ↦ rw won (
            update_where-AllEntries (λ k row. IsWithinBudget row)
              (compute_delivery_resolution_id sha256_hex activity_id recipient) (is_claimable now)
              (claimed_by now token) (others rows)
              (λ k row p w. ground (arith, claimable-live now row)) k)
      ]

  -- A claim of a row within its budget leaves room for one more attempt.
  pub claim-attempts :
      (others : Resolutions → Resolutions) (now : ℕ) (token activity_id recipient : JsString)
      (rows : Resolutions) {c : Claim} {rows' : Resolutions}
      → IsBounded rows
      → claim_delivery_resolution_job sha256_hex others now token activity_id recipient rows
        ≡ (claimed c, rows')
      → c.attempts < max_resolve_attempts
  unfolding claim_delivery_resolution_job
  claim-attempts others now token activity_id recipient rows {c} {rows'} h e =
      elim (Option-cases (lookup id rows)) [
        | inl gone ↦ let x = rw gone at e in cc
        | inr (row, there) ↦
            let x = rw there at e in
            let w = AllEntries-lookup (λ k row. IsWithinBudget row) id rows h there in
            ground (arith, x, w)
      ]
    where
      id : JsString
      id = compute_delivery_resolution_id sha256_hex activity_id recipient

pub retry-IsBounded :
    (now : ℕ) (c : Claim) (error : JsString) (delay_seconds : ℕ) (rows : Resolutions)
    → c.attempts < max_resolve_attempts
    → IsBounded rows
    → IsBounded (retry_delivery_resolution_job now c error delay_seconds rows).1
unfolding retry_delivery_resolution_job retried is_terminal
retry-IsBounded now c error delay_seconds rows room h =
    update_where-AllEntries (λ k row. IsWithinBudget row) c.id (is_owned c) _ rows
      (λ k row p w. ground arith) h

pub defer-IsBounded :
    (now : ℕ) (c : Claim) (error : JsString) (delay_seconds : ℕ) (rows : Resolutions)
    → IsBounded rows
    → IsBounded (defer_delivery_resolution_job now c error delay_seconds rows).1
unfolding defer_delivery_resolution_job put_off is_terminal
defer-IsBounded now c error delay_seconds rows h =
    update_where-AllEntries (λ k row. IsWithinBudget row) c.id (is_owned c) _ rows
      (λ k row p w. ground (arith, owned-some c row)) h

pub complete-IsBounded :
    (now : ℕ) (c : Claim) (status : ResolutionStatus) (reason : Option JsString)
    (rows : Resolutions)
    → is_terminal status ≡ true
    → IsBounded rows
    → IsBounded (complete_delivery_resolution_job now c status reason rows).1
unfolding complete_delivery_resolution_job completed
complete-IsBounded now c status reason rows over h =
    update_where-AllEntries (λ k row. IsWithinBudget row) c.id (is_owned c) _ rows
      (λ k row p w. (w.0, λ live. cc, λ over_. refl)) h

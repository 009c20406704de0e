-- ===== src/Delivery/Resolutions/Runs.antt =====
-- Runs of the resolution outbox: the operations of any number of workers, one after another, with
-- the work of others inside a claim.
use yurucommu_core.Base.{ℕ, Bool, true, Option, List, JsString, ◌≡◌}
use yurucommu_core.Delivery.Jobs.{QueueMessage}
use yurucommu_core.Delivery.Resolutions.{
  Resolutions, ResolutionStatus, Claim, ClaimResult, Intent, Outbox, claimed, is_terminal,
  enqueue_delivery_resolution_jobs, enqueue_pending_delivery_resolution_jobs,
  claim_delivery_resolution_job, retry_delivery_resolution_job, defer_delivery_resolution_job,
  complete_delivery_resolution_job,
}
use yurucommu_core.Delivery.Resolutions.Budget.{
  IsBounded, enqueue-IsBounded, sweep-IsBounded, claim-IsBounded, claim-attempts, retry-IsBounded,
  defer-IsBounded, complete-IsBounded,
}

module _ (sha256_hex : JsString → JsString) (accepts : List QueueMessage → Bool) where
  -- The states that the operations reach from a state. A claim that is retried was won before, at
  -- some state of the run.
  pub data Reaches : Outbox → Outbox → Type 0 where
    start : {s : Outbox} → Reaches s s
    enqueue :
        {s t : Outbox} (now : ℕ) (queue_bound : Bool) (intents : List Intent) (reopen : Bool)
        → Reaches s t
        → Reaches s
            (enqueue_delivery_resolution_jobs sha256_hex accepts now queue_bound intents reopen t).1
    sweep :
        {s t : Outbox} (now : ℕ) (queue_bound : Bool)
        → Reaches s t
        → Reaches s
            (enqueue_pending_delivery_resolution_jobs sha256_hex accepts now queue_bound t).1
    claim :
        {s t : Outbox} (others : Resolutions → Resolutions) (now : ℕ)
        (token activity_id recipient : JsString) (r : ClaimResult) (rows' : Resolutions)
        → Reaches s t
        → Reaches t (record t { rows = others t.rows })
        → claim_delivery_resolution_job sha256_hex others now token activity_id recipient t.rows
          ≡ (r, rows')
        → Reaches s (record t { rows = rows' })
    retry :
        {s t earlier : Outbox} (others : Resolutions → Resolutions) (now now' : ℕ)
        (token activity_id recipient : JsString) (c : Claim) (rows' : Resolutions)
        (error : JsString) (delay_seconds : ℕ)
        → Reaches s earlier
        → claim_delivery_resolution_job sha256_hex others now token activity_id recipient
            earlier.rows
          ≡ (claimed c, rows')
        → Reaches s t
        → Reaches s (record t {
          rows = (retry_delivery_resolution_job now' c error delay_seconds t.rows).1;
        })
    put_off :
        {s t : Outbox} (now : ℕ) (c : Claim) (error : JsString) (delay_seconds : ℕ)
        → Reaches s t
        → Reaches s
            (record t { rows = (defer_delivery_resolution_job now c error delay_seconds t.rows).1 })
    complete :
        {s t : Outbox} (now : ℕ) (c : Claim) (status : ResolutionStatus) (reason : Option JsString)
        → is_terminal status ≡ true
        → Reaches s t
        → Reaches s
            (record t { rows = (complete_delivery_resolution_job now c status reason t.rows).1 })

  -- In every state that the operations reach, if it was so at first, every row has used at most eight
  -- attempts, and fewer while it is not at its end; and a row at its end has no token. The work of
  -- others inside a claim is itself a run of the operations.
  pub Reaches-IsBounded : {s t : Outbox} → Reaches s t → IsBounded s.rows → IsBounded t.rows
  Reaches-IsBounded start h = h
  Reaches-IsBounded (enqueue now bound intents reopen r) h =
      enqueue-IsBounded sha256_hex accepts now bound intents reopen _ (Reaches-IsBounded r h)
  Reaches-IsBounded (sweep now bound r) h =
      sweep-IsBounded sha256_hex accepts now bound _ (Reaches-IsBounded r h)
  Reaches-IsBounded (claim others now token a b res rows' r q e) h =
      let k = Reaches-IsBounded r h in
      claim-IsBounded sha256_hex others now token a b _ k (Reaches-IsBounded q k) e
  Reaches-IsBounded (retry others now now' token a b c rows' error delay q e r) h =
      retry-IsBounded now' c error delay _
        (claim-attempts sha256_hex others now token a b _ (Reaches-IsBounded q h) e)
        (Reaches-IsBounded r h)
  Reaches-IsBounded (put_off now c error delay r) h =
      defer-IsBounded now c error delay _ (Reaches-IsBounded r h)
  Reaches-IsBounded (complete now c status reason over r) h =
      complete-IsBounded now c status reason _ over (Reaches-IsBounded r h)

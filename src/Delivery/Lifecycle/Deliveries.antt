-- ===== src/Delivery/Lifecycle/Deliveries.antt =====
-- A whole delivery, as steps of the row.
use yurucommu_core.Base.{some, JsString, ◌≡◌, ◌⊎◌, inl, inr, arith, Bool-cases, Option-cases}
use yurucommu_core.Delivery.Jobs.{Job}
use yurucommu_core.Delivery.Invalidate.{Env}
use yurucommu_core.Delivery.Deliver.{World, Run}
use yurucommu_core.Delivery.Process.{
  expire, succeed, settle_counted, settle_retryable, settle, consider, invalidate,
  process_deliver_endpoint,
}
use yurucommu_core.Delivery.Process
use yurucommu_core.Delivery.Lifecycle.Settling.{row_in}

module _ (env : Env) (run : Run) (job_id : JsString) where
  pub process-cases :
      (w : World)
      → (process_deliver_endpoint env run job_id w ≡ (some tt, w))
        ⊎ ((read : Job) × (process_deliver_endpoint env run job_id w
              ≡ consider env run job_id read w))
  unfolding process_deliver_endpoint
  process-cases w = elim (Option-cases (row_in env run job_id w)) [
    | inl gone ↦ inl (ground arith)
    | inr (read, there) ↦ elim (Bool-cases run.queue_bound) [
      | inl bound ↦ inr (read, ground arith)
      | inr unbound ↦ inl (ground arith)
    ]
  ]

-- ===== src/Delivery/Lifecycle/Revivals.antt =====
-- Revivals, and jobs that exist already, as steps of the row.
use yurucommu_core.Base.{
  refl, ℕ, ◌+◌, ◌≤◌, Bool, true, some, JsString, JsMap, ◌≡◌, ◌⊎◌, ap, inl, inr, arith, lookup,
  update_where,
}
use yurucommu_core.Delivery.Jobs.{
  Job, JobStatus, pending, processing, retry_wait, delivered, failed, QueueMessage, Sent, status_eq,
  dead_letter, max_reconcile_attempts,
}
use yurucommu_core.Delivery.Reconcile.{Ledger, revived, is_revivable, process_reconcile_job, send}
use yurucommu_core.Delivery.Lifecycle.{
  JobStep, JobSteps, done, next, claim, fail, deliver, wait, bury, interrupt, revive, readdress,
}
use yurucommu_core.Delivery.Lifecycle.Evolution.{
  Evolves, Evolves-≡, Evolves-step, Evolves-trans, update_where-Evolves,
}

dead-status : (s : JobStatus) → status_eq s dead_letter ≡ true → s ≡ dead_letter
unfolding status_eq
dead-status pending k = cc
dead-status processing k = cc
dead-status retry_wait k = cc
dead-status delivered k = cc
dead-status dead_letter k = refl
dead-status failed k = cc

module _ (accepts : Sent → Bool) where
  -- A message of revival leaves the jobs, leaves them to the others, or revives its job.
  pub reconcile-cases :
      (queue_bound : Bool) (others : JsMap Job → JsMap Job) (now : ℕ) (message : QueueMessage)
      (job_id : JsString) (attempt : ℕ) (w : Ledger)
      → let after =
          (process_reconcile_job accepts queue_bound others now message job_id attempt w).1.jobs in
        (after ≡ w.jobs)
        ⊎ ((after ≡ others w.jobs)
            ⊎ ((1 ≤ attempt)
                × (attempt ≤ max_reconcile_attempts)
                × (after
                    ≡ update_where job_id
                        (is_revivable now attempt)
                        (revived now attempt)
                        (others w.jobs))))
  unfolding process_reconcile_job send
  reconcile-cases queue_bound others now message job_id attempt w = ground arith

  -- A revival, whatever fair others do between its two statements, is a run of steps of its row.
  pub process_reconcile_job-Evolves :
      (queue_bound : Bool) (others : JsMap Job → JsMap Job) (now : ℕ) (message : QueueMessage)
      (job_id : JsString) (attempt : ℕ) (w : Ledger)
      → ((jobs : JsMap Job) → Evolves (lookup job_id jobs) (lookup job_id (others jobs)))
      → Evolves (lookup job_id w.jobs) (
          lookup job_id
            (process_reconcile_job accepts queue_bound others now message job_id attempt w).1.jobs)
  unfolding is_revivable revived
  process_reconcile_job-Evolves queue_bound others now message job_id attempt w fair =
      elim (reconcile-cases queue_bound others now message job_id attempt w) [
        | inl kept ↦ Evolves-≡ (ap (lookup job_id) kept)
        | inr (inl left) ↦ rw left (fair w.jobs)
        | inr (inr (low, high, done_)) ↦ rw done_ (
            Evolves-trans (fair w.jobs) (
              update_where-Evolves job_id (is_revivable now attempt) (revived now attempt)
                (others w.jobs)
                (λ b h.
                  step b (dead-status b.status (ground arith)) (ground arith) (ground arith)
                    (ground arith) low high)))
      ]
    where
      step :
          (b : Job)
          → b.status ≡ dead_letter
          → b.dlq_pending ≡ 1
          → attempt ≡ b.reconcile_attempt + 1
          → b.next_attempt_at ≤ now
          → 1 ≤ attempt
          → attempt ≤ max_reconcile_attempts
          → Evolves (some b) (some (revived now attempt b))
      step b dead due e early low high =
          rw e (Evolves-step (revive now b dead due early (omega arith)))

step-generation :
    {n i : ℕ} {a b : Job} → JobStep n i a b → a.reconcile_attempt ≤ b.reconcile_attempt
step-generation (claim now token job h k) = omega arith
step-generation (fail now error job h) = omega arith
step-generation (deliver now token job h k) = omega arith
step-generation (wait now delay error token job h k l) = omega arith
step-generation (bury now error token job h k l) = omega arith
step-generation (interrupt token job h k) = omega arith
step-generation (revive now job h k l m) = omega arith
step-generation (readdress a e job h k) = omega arith

steps-generation :
    {n i : ℕ} {a b : Job} → JobSteps n i a b → a.reconcile_attempt ≤ b.reconcile_attempt
steps-generation done = omega arith
steps-generation (next r s) = omega (arith, steps-generation r, step-generation s)

module _ (accepts : Sent → Bool) where
  -- A message of revival whose generation has begun, at any later time of the job and however often
  -- it is delivered, changes no job: a revival is used once, and mints no second budget.
  pub reconcile-once :
      (queue_bound : Bool) (others : JsMap Job → JsMap Job) (before now : ℕ)
      (message : QueueMessage) (job_id : JsString) (attempt : ℕ) (w : Ledger) (dead : Job) {n i : ℕ}
      {later : Job}
      → JobSteps n i (revived before attempt dead) later
      → lookup job_id w.jobs ≡ some later
      → (process_reconcile_job accepts queue_bound others now message job_id attempt w).1.jobs
        ≡ w.jobs
  unfolding process_reconcile_job send revived
  reconcile-once queue_bound others before now message job_id attempt w dead r there =
      ground (arith, steps-generation r)

-- ===== src/Delivery/Lifecycle.antt =====
-- The life of one row of `delivery_queue`: every write of the handlers as a step of a relation, and
-- the budget that the steps spend.
pub mod Evolution
pub mod Settling
pub mod Responses
pub mod Deliveries
pub mod Revivals
pub mod Budgets
pub mod Payments
pub mod Failures
use yurucommu_core.Base.{
  ℕ, suc, ◌+◌, ◌*◌, ◌≤◌, ◌<◌, Bool, true, false, Option, none, some, JsString, ◌≡◌, if◌then◌else◌,
  ltb,
}
use yurucommu_core.Delivery.Jobs.{
  Job, JobStatus, pending, processing, retry_wait, delivered, dead_letter, failed, status_eq,
  is_terminal,
}

-- A job that no worker holds: it waits, or its worker started more than two minutes ago.
abbrev pub is_free : ℕ → JobStatus → Option ℕ → Bool
is_free now pending started = true
is_free now retry_wait started = true
is_free now processing (some started) = ltb (started + 120000) now
is_free now _ _ = false

-- `JobStep n i`: a write that counts `n` failed attempts, `i` of them by a worker that did not go on
-- to the decision that follows the count.
pub data JobStep : ℕ → ℕ → Job → Job → Type 0 where
  claim :
      (now : ℕ) (token : JsString) (job : Job)
      → job.next_attempt_at ≤ now
      → is_free now job.status job.processing_started_at ≡ true
      → JobStep 0 0 job (record job {
        status = processing;
        processing_started_at = some now;
        processing_token = some token;
      })
  fail :
      (now : ℕ) (error : JsString) (job : Job)
      → is_terminal job.status ≡ false
      → JobStep 0 0 job (record job {
        status = failed;
        error = some error;
        last_attempt_at = some now;
        processing_started_at = none;
        processing_token = none;
        dlq_pending = 0;
      })
  deliver :
      (now : ℕ) (token : JsString) (job : Job)
      → job.status ≡ processing
      → job.processing_token ≡ some token
      → JobStep 0 0 job (record job {
        status = delivered;
        delivered_at = some now;
        error = none;
        last_attempt_at = some now;
        processing_started_at = none;
        processing_token = none;
        dlq_pending = 0;
      })
  wait :
      (now delay_seconds : ℕ) (error token : JsString) (job : Job)
      → job.status ≡ processing
      → job.processing_token ≡ some token
      → suc job.attempts < 8
      → JobStep 1 0 job (record job {
        attempts = job.attempts + 1;
        status = retry_wait;
        error = some error;
        last_attempt_at = some now;
        processing_started_at = none;
        processing_token = none;
        next_attempt_at = now + delay_seconds * 1000;
      })
  bury :
      (now : ℕ) (error token : JsString) (job : Job)
      → job.status ≡ processing
      → job.processing_token ≡ some token
      → 8 ≤ suc job.attempts
      → JobStep 1 0 job (record job {
        attempts = job.attempts + 1;
        status = dead_letter;
        error = some error;
        last_attempt_at = some now;
        processing_started_at = none;
        processing_token = none;
        dlq_pending = if ltb job.reconcile_attempt 5 then 1 else 0;
        next_attempt_at = now + 21600000;
      })
  interrupt :
      (token : JsString) (job : Job)
      → job.status ≡ processing
      → job.processing_token ≡ some token
      → JobStep 1 1 job (record job { attempts = job.attempts + 1 })
  revive :
      (now : ℕ) (job : Job)
      → job.status ≡ dead_letter
      → job.dlq_pending ≡ 1
      → job.next_attempt_at ≤ now
      → job.reconcile_attempt < 5
      → JobStep 0 0 job (record job {
        status = pending;
        reconcile_attempt = job.reconcile_attempt + 1;
        dlq_pending = 0;
        attempts = 0;
        error = none;
        last_attempt_at = none;
        processing_started_at = none;
        processing_token = none;
        next_attempt_at = now;
      })
  readdress :
      (activity_id endpoint : JsString) (job : Job)
      → status_eq job.status processing ≡ false
      → status_eq job.status delivered ≡ false
      → JobStep 0 0 job (record job { inbox_url = endpoint; activity_ap_id = activity_id })

pub data JobSteps : ℕ → ℕ → Job → Job → Type 0 where
  done : {job : Job} → JobSteps 0 0 job job
  next :
      {n i m j : ℕ} {a b c : Job}
      → JobSteps n i a b
      → JobStep m j b c
      → JobSteps (n + m) (i + j) a c

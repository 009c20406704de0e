-- ===== src/Delivery/Lifecycle/Settling.antt =====
-- The rows that a worker owns, and what it makes of a failure that it has counted.
use yurucommu_core.Base.{
  none, sym, ◌⊎◌, str_eq_iff, str_eq_refl, update_where-skips, lookup-update_where, ℕ, ◌+◌, ◌≤◌,
  ◌<◌, Bool, true, false, Option, some, JsString, ◌≡◌, ◌∙◌, ap, inl, inr, arith, lookup, refl, leb,
  leb→le, Bool-cases, Option-cases, update_where, affects, affects-some, lookup-update_where_self,
}
use yurucommu_core.Delivery.Jobs.{
  JobStatus, pending, retry_wait, delivered, dead_letter, failed, token_is, Job, Sent, status_eq,
  delivery_max_attempts, processing, compute_retry_delay_seconds,
}
use yurucommu_core.Delivery.Invalidate.{Env}
use yurucommu_core.Delivery.Deliver.{
  World, Run, Point, after_increment, is_owned, counted, put_off, dead_lettered,
  build_error_message,
}
use yurucommu_core.Delivery.Process.{send, send_again, settle_counted}
use yurucommu_core.Delivery.Lifecycle.{wait, bury}
use yurucommu_core.Delivery.Lifecycle.Evolution.{Evolves, Evolves-step}

status-processing : (s : JobStatus) → status_eq s processing ≡ true → s ≡ processing
unfolding status_eq
status-processing pending k = cc
status-processing processing k = refl
status-processing retry_wait k = cc
status-processing delivered k = cc
status-processing dead_letter k = cc
status-processing failed k = cc

token-held : (token : JsString) (o : Option JsString) → token_is token o ≡ true → o ≡ some token
unfolding token_is
token-held token none k = cc
token-held token (some t) k = ap some ((str_eq_iff t token).0 k)

module _ (env : Env) (run : Run) (job_id : JsString) where
  -- The row of the job in a state.
  abbrev pub row_in : World → Option Job
  row_in w = lookup job_id w.jobs

  -- What the other workers do lets the row evolve; between the count of a failure and the decision,
  -- they leave alone the row that this worker owns, or take it from the worker altogether.
  abbrev pub IsFair : Type 0
  IsFair =
      ((p : Point) (w : World) → Evolves (row_in w) (row_in (run.others p w)))
      × ((w : World) (job : Job) (generation : ℕ)
          → row_in w ≡ some job
          → is_owned run generation job ≡ true
          → (row_in (run.others after_increment w) ≡ some job)
            ⊎ (affects job_id (is_owned run generation) (run.others after_increment w).jobs
                ≡ false))

  send-jobs : (s : Sent) (w : World) → (send env run s w).1.jobs ≡ w.jobs
  unfolding send
  send-jobs s w = ground arith

  pub send-Evolves :
      (s : Sent) (w : World) {o : Option Job}
      → Evolves o (row_in w)
      → Evolves o (row_in (send env run s w).1)
  send-Evolves s w e = rw (send-jobs s w) e

  pub owned-processing :
      (generation : ℕ) (job : Job)
      → is_owned run generation job ≡ true
      → (job.status ≡ processing)
        × (job.reconcile_attempt ≡ generation)
        × (job.processing_token ≡ some run.processing_token)
  unfolding is_owned
  owned-processing generation job h = (
    status-processing job.status (ground arith),
    ground arith,
    token-held run.processing_token job.processing_token (ground arith),
  )

  pub buried-jobs :
      (read : Job) (attempts : ℕ) (w : World)
      → delivery_max_attempts ≤ attempts
      → affects job_id (is_owned run read.reconcile_attempt) w.jobs ≡ true
      → (settle_counted env run job_id read attempts w).1.jobs
        ≡ update_where job_id
            (is_owned run read.reconcile_attempt)
            (dead_lettered run.now_settle read.reconcile_attempt (build_error_message run.response))
            w.jobs
  unfolding settle_counted send
  buried-jobs read attempts w over hit = ground arith

  pub waiting-jobs :
      (read : Job) (attempts : ℕ) (w : World)
      → attempts < delivery_max_attempts
      → (settle_counted env run job_id read attempts w).1.jobs
        ≡ update_where job_id
            (is_owned run read.reconcile_attempt)
            (put_off run.now_settle
              (compute_retry_delay_seconds run.random attempts)
              (build_error_message run.response))
            w.jobs
  unfolding settle_counted send_again send
  waiting-jobs read attempts w room = ground arith

  pub counted-owned :
      (generation : ℕ) (job : Job)
      → is_owned run generation job ≡ true
      → is_owned run generation (counted job) ≡ true
  unfolding is_owned counted
  counted-owned generation job h = h

  pub settle_counted-Evolves :
      (read b : Job) (w : World)
      → row_in w ≡ some (counted b)
      → is_owned run read.reconcile_attempt b ≡ true
      → Evolves (some b) (row_in (settle_counted env run job_id read (b.attempts + 1) w).1)
  unfolding counted is_owned dead_lettered put_off
  settle_counted-Evolves read b w there owned =
      elim (Bool-cases (leb delivery_max_attempts (b.attempts + 1))) [
        | inl over ↦
            rw (buried-jobs read (b.attempts + 1) w (leb→le _ _ over) hit, row_after _, ← own.1)
              (Evolves-step (
                bury run.now_settle (build_error_message run.response) run.processing_token b own.0
                  own.2 (omega (arith, leb→le delivery_max_attempts (b.attempts + 1) over))))
        | inr room ↦
            rw (waiting-jobs read (b.attempts + 1) w (ground arith), row_after _)
              (Evolves-step (
                wait run.now_settle (compute_retry_delay_seconds run.random (b.attempts + 1))
                  (build_error_message run.response) run.processing_token b own.0 own.2
                  (ground arith)))
      ]
    where
      own :
          (b.status ≡ processing)
          × (b.reconcile_attempt ≡ read.reconcile_attempt)
          × (b.processing_token ≡ some run.processing_token)
      own = owned-processing read.reconcile_attempt b owned

      hit : affects job_id (is_owned run read.reconcile_attempt) w.jobs ≡ true
      hit = affects-some job_id (is_owned run read.reconcile_attempt) w.jobs there ∙ owned

      row_after :
          (f : Job → Job)
          → lookup job_id (update_where job_id (is_owned run read.reconcile_attempt) f w.jobs)
            ≡ some (f (counted b))
      row_after f =
          lookup-update_where_self job_id (is_owned run read.reconcile_attempt) f w.jobs there
          ∙ rw owned refl

  -- A row that is not owned is left as it is.
  unowned-row :
      (p : Job → Bool) (f : Job → Job) (w : World)
      → affects job_id p w.jobs ≡ false
      → lookup job_id (update_where job_id p f w.jobs) ≡ row_in w
  unowned-row p f w miss = elim (Option-cases (row_in w)) [
    | inl gone ↦ rw (lookup-update_where job_id job_id p f w.jobs, gone, str_eq_refl job_id) refl
    | inr (b, there) ↦
        update_where-skips job_id job_id p f w.jobs there
          (sym (affects-some job_id p w.jobs there) ∙ miss)
  ]

  unburied :
      (read : Job) (attempts : ℕ) (w : World)
      → leb delivery_max_attempts attempts ≡ true
      → affects job_id (is_owned run read.reconcile_attempt) w.jobs ≡ false
      → (settle_counted env run job_id read attempts w).1 ≡ w
  unfolding settle_counted
  unburied read attempts w over miss = rw (over, miss) refl

  pub settle_counted-lost :
      (read : Job) (attempts : ℕ) (w : World)
      → affects job_id (is_owned run read.reconcile_attempt) w.jobs ≡ false
      → row_in (settle_counted env run job_id read attempts w).1 ≡ row_in w
  settle_counted-lost read attempts w miss =
      elim (Bool-cases (leb delivery_max_attempts attempts)) [
        | inl over ↦ ap row_in (unburied read attempts w over miss)
        | inr room ↦
            ap (lookup job_id) (waiting-jobs read attempts w (ground arith))
            ∙ unowned-row (is_owned run read.reconcile_attempt)
                (put_off run.now_settle (compute_retry_delay_seconds run.random attempts)
                  (build_error_message run.response))
                w miss
      ]

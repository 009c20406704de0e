-- ===== src/Delivery/Lifecycle/Responses.antt =====
-- What a delivery makes of a response, as steps of the row.
use yurucommu_core.Base.{
  ℕ, ◌+◌, Bool, true, false, some, JsString, JsMap, ◌≡◌, ◌∙◌, ap, inl, inr, arith, lookup, refl,
  Bool-cases, Option-cases, update_where, affects, affects-some, affects-none,
  lookup-update_where_self,
}
use yurucommu_core.Delivery.Jobs.{Job, is_permanent_delivery_failure, is_terminal}
use yurucommu_core.Delivery.Circuit.{record_circuit_failure}
use yurucommu_core.Delivery.Invalidate.{Env}
use yurucommu_core.Delivery.Deliver.{
  World, Run, after_increment, is_owned, counted, delivered_at_time, failed_with, fail_job,
  build_error_message, is_ok, status_of,
}
use yurucommu_core.Delivery.Process.{expire, succeed, settle_retryable, settle, invalidate}
use yurucommu_core.Delivery.Lifecycle.{fail, deliver, interrupt}
use yurucommu_core.Delivery.Lifecycle.Evolution.{
  Evolves, Evolves-refl, Evolves-≡, Evolves-step, Evolves-trans, update_where-Evolves,
}
use yurucommu_core.Delivery.Lifecycle.Settling.{
  row_in, IsFair, owned-processing, counted-owned, settle_counted-Evolves, settle_counted-lost,
}

module _ (env : Env) (run : Run) (job_id : JsString) where
  -- The row is still owned: the failure is counted, and settled unless the circuit throws.
  counted-Evolves :
      (read b : Job) (w : World)
      → IsFair env run job_id
      → row_in env run job_id w ≡ some b
      → is_owned run read.reconcile_attempt b ≡ true
      → Evolves (some b) (row_in env run job_id (settle_retryable env run job_id read w).1)
  unfolding settle_retryable counted
  counted-Evolves read b w fair there owned =
      rw (hit, count_row, settle_retryable)
        (elim (Option-cases
          (record_circuit_failure run.circuit_others run.now_settle w.circuits read.inbox_url)) [
            | inl throws ↦ rw (throws, count_row) interrupted
            | inr (circuits, fed) ↦
                let before : World = record w { jobs = jobs; circuits = circuits } in
                elim (fair.1 before (counted b) read.reconcile_attempt count_row still) [
                  | inl kept ↦ rw fed (
                      settle_counted-Evolves env run job_id read b
                        (run.others after_increment before) kept owned)
                  | inr taken ↦
                      rw
                        (
                          fed,
                          settle_counted-lost env run job_id read (b.attempts + 1)
                              (run.others after_increment before) taken,
                        )
                        (Evolves-trans interrupted
                          (let e = fair.0 after_increment before in rw (← count_row) e))
                ]
          ])
    where
      jobs : JsMap Job
      jobs = update_where job_id (is_owned run read.reconcile_attempt) counted w.jobs

      interrupted : Evolves (some b) (some (counted b))
      interrupted =
          let own = owned-processing env run job_id read.reconcile_attempt b owned in
          Evolves-step (interrupt run.processing_token b own.0 own.2)

      still : is_owned run read.reconcile_attempt (counted b) ≡ true
      still = counted-owned env run job_id read.reconcile_attempt b owned

      hit : affects job_id (is_owned run read.reconcile_attempt) w.jobs ≡ true
      hit = affects-some job_id (is_owned run read.reconcile_attempt) w.jobs there ∙ owned

      count_row : lookup job_id jobs ≡ some (counted b)
      count_row =
          lookup-update_where_self job_id (is_owned run read.reconcile_attempt) counted w.jobs there
          ∙ rw owned refl

  settle_retryable-Evolves :
      (read : Job) (w : World)
      → IsFair env run job_id
      → Evolves
          (row_in env run job_id w)
          (row_in env run job_id (settle_retryable env run job_id read w).1)
  unfolding settle_retryable
  settle_retryable-Evolves read w fair = elim (Option-cases (row_in env run job_id w)) [
    | inl gone ↦
        let miss = affects-none job_id (is_owned run read.reconcile_attempt) w.jobs gone in
        rw (miss, settle_retryable) (Evolves-refl (row_in env run job_id w))
    | inr (b, there) ↦ elim (Bool-cases (is_owned run read.reconcile_attempt b)) [
      | inl owned ↦ let e = counted-Evolves read b w fair there owned in rw there e
      | inr other ↦
          let miss =
            affects-some job_id (is_owned run read.reconcile_attempt) w.jobs there ∙ other in
          rw (miss, settle_retryable) (Evolves-refl (row_in env run job_id w))
    ]
  ]

  invalidate-jobs : (read : Job) (w : World) → (invalidate env run read w).jobs ≡ w.jobs
  unfolding invalidate
  invalidate-jobs read w = refl

  pub failing-Evolves :
      (now : ℕ) (error : JsString) (fence : Job → Bool) (w : World)
      → ((b : Job) → fence b ≡ true → is_terminal b.status ≡ false)
      → Evolves
          (row_in env run job_id w)
          (row_in env run job_id (fail_job now job_id error fence w).1)
  unfolding fail_job failed_with
  failing-Evolves now error fence w live =
      update_where-Evolves job_id fence (failed_with now error) w.jobs
        (λ b h. Evolves-step (fail now error b (live b h)))

  pub owned-live :
      (generation : ℕ) (b : Job) → is_owned run generation b ≡ true → is_terminal b.status ≡ false
  unfolding is_terminal
  owned-live generation b h = rw ((owned-processing env run job_id generation b h).0) refl

  pub expire-jobs : (read : Job) (w : World) → (expire env run read w).jobs ≡ w.jobs
  unfolding expire
  expire-jobs read w = ground (arith, invalidate-jobs read w)

  expired :
      (read : Job) (w : World)
      → Evolves (row_in env run job_id w) (row_in env run job_id (expire env run read w))
  expired read w = Evolves-≡ (ap (lookup job_id) (expire-jobs read w))

  pub succeed-jobs :
      (read : Job) (w : World)
      → (succeed env run job_id read w).1.jobs
        ≡ update_where job_id
            (is_owned run read.reconcile_attempt)
            (delivered_at_time run.now_settle)
            w.jobs
  unfolding succeed
  succeed-jobs read w = ground arith

  pub settle-Evolves :
      (read : Job) (w : World)
      → IsFair env run job_id
      → Evolves (row_in env run job_id w) (row_in env run job_id (settle env run job_id read w).1)
  unfolding settle delivered_at_time
  settle-Evolves read w fair = elim (Bool-cases (is_ok run.response)) [
    | inl ok ↦
        rw (ok, settle)
          (rw (succeed-jobs read w) (
            update_where-Evolves job_id (is_owned run read.reconcile_attempt)
              (delivered_at_time run.now_settle) w.jobs
              (λ b h.
                let own = owned-processing env run job_id read.reconcile_attempt b h in
                Evolves-step (deliver run.now_settle run.processing_token b own.0 own.2))))
    | inr bad ↦ elim (Bool-cases (is_permanent_delivery_failure (status_of run.response))) [
      | inl permanent ↦
          rw (bad, permanent, settle)
            (Evolves-trans (expired read w) (
              failing-Evolves run.now_settle (build_error_message run.response)
                (is_owned run read.reconcile_attempt) (expire env run read w)
                (owned-live read.reconcile_attempt)))
      | inr transient ↦
          rw (bad, transient, settle)
            (Evolves-trans (expired read w)
              (settle_retryable-Evolves read (expire env run read w) fair))
    ]
  ]

-- ===== src/Delivery/Process/Fences.antt =====
-- Workers that hold the same job.
use mathlib.Core.Option.{some-injective}
use yurucommu_core.Base.{
  ℕ, refl, sym, ◌∙◌, inl, inr, Option-cases, affects-none, lookup-update_where_self, ◌+◌, ◌≤◌, true,
  false, some, JsString, ◌≡◌, arith, lookup, update_where, affects, affects-some,
  update_where-skips,
}
use yurucommu_core.Delivery.Jobs.{Job, processing, status_eq, is_terminal, stale_processing_ms}
use yurucommu_core.Delivery.Invalidate.{Env}
use yurucommu_core.Delivery.Deliver.{
  World, Run, is_claimable, claimed_by, is_owned, fail_job, delivered_at_time, failed_with,
  build_error_message,
}
use yurucommu_core.Delivery.Process.{claim, settle, settle_retryable, succeed, expire, invalidate}

module _ (env : Env) (job_id : JsString) where
  -- The row of a claim that took it.
  claimed-row :
      (run : Run) (read : Job) (w : World) {a : Job}
      → affects job_id (is_claimable run read) w.jobs ≡ true
      → lookup job_id (update_where job_id (is_claimable run read) (claimed_by run) w.jobs) ≡ some a
      → (a.status ≡ processing) × (a.processing_started_at ≡ some run.now_claim)
  unfolding claimed_by
  claimed-row run read w {a} hit there = elim (Option-cases (lookup job_id w.jobs)) [
    | inl gone ↦ let miss = affects-none job_id (is_claimable run read) w.jobs gone in cc
    | inr (b, here) ↦
        let row =
          lookup-update_where_self job_id (is_claimable run read) (claimed_by run) w.jobs here in
        let open_ = sym (affects-some job_id (is_claimable run read) w.jobs here) ∙ hit in
        let same : claimed_by run b ≡ a = some-injective _ _ (rw (← there, row, open_) refl) in
        rw (← same) (refl, refl)
  ]

  running-closed :
      (run : Run) (read c : Job) (started : ℕ)
      → c.status ≡ processing
      → c.processing_started_at ≡ some started
      → run.now_claim ≤ started + stale_processing_ms
      → is_claimable run read c ≡ false
  unfolding is_claimable status_eq is_terminal
  running-closed run read c started s k soon = rw (s, k) (ground arith)

  -- After one worker's claim, in any later state in which the row of the job, whatever else of it
  -- has changed, still has the status and the start time that the claim wrote, so that neither that
  -- worker has settled it nor another has claimed it, every claim of the job within two minutes of
  -- the first, by any worker and for any row that it read before, is acknowledged without a POST and
  -- changes nothing.
  pub post-excludes :
      (run run' : Run) (read read' : Job) (w later : World) {a c : Job}
      → affects job_id (is_claimable run read) w.jobs ≡ true
      → lookup job_id (update_where job_id (is_claimable run read) (claimed_by run) w.jobs) ≡ some a
      → lookup job_id later.jobs ≡ some c
      → c.status ≡ a.status
      → c.processing_started_at ≡ a.processing_started_at
      → run'.now_claim ≤ run.now_claim + stale_processing_ms
      → claim env run' job_id read' later ≡ (some tt, later)
  unfolding claim
  post-excludes run run' read read' w later {a} {c} hit there here same started soon =
      let row = claimed-row run read w hit there in
      let closed =
        running-closed run' read' c run.now_claim (same ∙ row.0) (started ∙ row.1) soon in
      let miss = affects-some job_id (is_claimable run' read') later.jobs here ∙ closed in
      rw miss refl

  -- A worker whose row changed hands, or changed its state, while it posted: whatever the response
  -- was, no row of the table changes, the message is acknowledged, and no failure is counted.
  pub lost_job-no_write :
      (run : Run) (read : Job) (w : World) {b : Job}
      → lookup job_id w.jobs ≡ some b
      → is_owned run read.reconcile_attempt b ≡ false
      → ((settle env run job_id read w).0 ≡ some tt)
        × ((j : JsString) → lookup j (settle env run job_id read w).1.jobs ≡ lookup j w.jobs)
  unfolding settle settle_retryable succeed fail_job expire invalidate
  lost_job-no_write run read w {b} there lost = (
    ground (arith, affects-some job_id (is_owned run read.reconcile_attempt) w.jobs there),
    λ j. ground (
      arith,
      affects-some job_id (is_owned run read.reconcile_attempt) w.jobs there,
      update_where-skips job_id j (is_owned run read.reconcile_attempt)
          (delivered_at_time run.now_settle) w.jobs there lost,
      update_where-skips job_id j (is_owned run read.reconcile_attempt)
          (failed_with run.now_settle (build_error_message run.response)) w.jobs there lost,
    ),
  )

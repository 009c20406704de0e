-- ===== src/Delivery/Lifecycle/Failures.antt =====
-- How often one job is posted, over any sequence of the handlers of its messages.
use yurucommu_core.Base.{
  ℕ, ◌+◌, ◌≤◌, Bool, true, some, List, [], ◌∷◌, JsString, ◌≡◌, refl, ap, inl, inr, arith, lookup,
  length,
}
use yurucommu_core.Delivery.Jobs.{QueueMessage, is_terminal, status_eq}
use yurucommu_core.Delivery.Invalidate.{Env}
use yurucommu_core.Delivery.Deliver.{World, Run}
use yurucommu_core.Delivery.Process.{process_deliver_endpoint}
use yurucommu_core.Delivery.Reconcile.{process_reconcile_job, revived, is_revivable, fresh_job}
use yurucommu_core.Delivery.Lifecycle.Revivals.{reconcile-cases}
use yurucommu_core.Delivery.Lifecycle.Budgets.{quiet, budget, has_room, update-budget, Pays}
use yurucommu_core.Delivery.Lifecycle.Payments.{delivery-Pays}

-- A message of the job: a delivery, or a revival with its time, its message and its generation.
pub data Handled : Type 0 where
  delivery : Run → Handled
  revival : Bool → ℕ → QueueMessage → ℕ → Handled

module _ (env : Env) (job_id : JsString) where
  unfoldable pub handle : Handled → World → World
  handle (delivery run) w = (process_deliver_endpoint env (quiet run) job_id w).1
  handle (revival queue_bound now message attempt) w =
      let r =
        process_reconcile_job env.accepts queue_bound (λ jobs. jobs) now message job_id attempt
          (record { jobs = w.jobs; sent = w.sent }) in
      record w { jobs = r.1.jobs; sent = r.1.sent }

  unfoldable pub handle_all : List Handled → World → World
  handle_all [] w = w
  handle_all (m ∷ ms) w = handle_all ms (handle m w)

module _ (env : Env) (job_id : JsString) where
  revival-Pays :
      (queue_bound : Bool) (now : ℕ) (message : QueueMessage) (attempt : ℕ) (w : World)
      → has_room (lookup job_id w.jobs) ≡ true
      → Pays job_id w (handle env job_id (revival queue_bound now message attempt) w)
  unfolding handle is_revivable revived is_terminal status_eq
  revival-Pays queue_bound now message attempt w room =
      elim (reconcile-cases env.accepts queue_bound (λ jobs. jobs) now message job_id attempt
        (record { jobs = w.jobs; sent = w.sent })) [
          | inl kept ↦ rw kept (omega arith, room)
          | inr (inl left) ↦ rw left (omega arith, room)
          | inr (inr (low, high, done_)) ↦
              let u =
                update-budget job_id (is_revivable now attempt) (revived now attempt) w.jobs
                  (λ b hit room'. (ground arith, ground arith)) room in
              rw done_ (omega (arith, u.0), u.1)
        ]

  handle-Pays :
      (m : Handled) (w : World)
      → has_room (lookup job_id w.jobs) ≡ true
      → Pays job_id w (handle env job_id m w)
  unfolding handle
  handle-Pays (delivery run) w room = delivery-Pays env run job_id w room
  handle-Pays (revival queue_bound now message attempt) w room =
      revival-Pays queue_bound now message attempt w room

  handle_all-Pays :
      (ms : List Handled) (w : World)
      → has_room (lookup job_id w.jobs) ≡ true
      → Pays job_id w (handle_all env job_id ms w)
  unfolding handle_all
  handle_all-Pays [] w room = (omega arith, room)
  handle_all-Pays (m ∷ ms) w room =
      let h = handle-Pays m w room in
      let k = handle_all-Pays ms (handle env job_id m w) h.1 in (omega (arith, h.0, k.0), k.1)

  -- A job that was just made is posted at most forty-eight times, whatever messages of delivery and
  -- of revival come for it, at whatever times, in whatever number and with whatever responses, if
  -- each is handled to its end before the next and no other handler acts meanwhile: eight attempts,
  -- and eight more for each of five revivals. A worker that stops after its POST, before it counts
  -- the failure, is not covered.
  pub failures_bounded :
      (now : ℕ) (activity_id endpoint : JsString) (ms : List Handled) (w : World)
      → lookup job_id w.jobs ≡ some (fresh_job now activity_id endpoint)
      → length (handle_all env job_id ms w).posts ≤ length w.posts + 48
  unfolding is_terminal
  failures_bounded now activity_id endpoint ms w there =
      let k = handle_all-Pays ms w (rw there refl) in omega (arith, k.0, ap budget there)

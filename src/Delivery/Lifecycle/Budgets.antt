-- ===== src/Delivery/Lifecycle/Budgets.antt =====
-- What one response takes from the budget of attempts of a job.
use yurucommu_core.Base.{
  str_eq_refl, lookup-update_where, ℕ, suc, ◌+◌, ◌*◌, ◌-◌, ◌≤◌, ◌<◌, Bool, true, false, ◌||◌,
  Option, none, some, JsString, JsMap, ◌≡◌, ◌⊎◌, ◌∙◌, refl, ap, inl, inr, arith, if◌then◌else◌, ltb,
  leb, leb→le, lookup, length, Bool-cases, Option-cases, update_where, affects-some,
  lookup-update_where_self,
}
use yurucommu_core.Delivery.Jobs.{
  Job, is_terminal, delivery_max_attempts, is_permanent_delivery_failure,
}
use yurucommu_core.Delivery.Circuit.{Circuits, get_or_create_circuit, record_circuit_failure}
use yurucommu_core.Delivery.Invalidate.{Env}
use yurucommu_core.Delivery.Deliver.{
  World, Run, is_owned, counted, put_off, dead_lettered, delivered_at_time, failed_with, fail_job,
  build_error_message, is_ok, status_of,
}
use yurucommu_core.Delivery.Process.{
  send, send_again, expire, succeed, settle_counted, settle_retryable, settle, invalidate,
}
use yurucommu_core.Delivery.Lifecycle.Responses.{succeed-jobs, expire-jobs}
use yurucommu_core.Delivery.Lifecycle.Settling.{buried-jobs, waiting-jobs, counted-owned}

-- The run of a handler that nothing interrupts: no one else acts while it waits.
abbrev pub quiet : Run → Run
quiet run = record run { others = λ point w. w; circuit_others = λ gap circuits. circuits }

-- The attempts that are left: of this generation, and eight for each generation to come.
abbrev pub budget : Option Job → ℕ
budget none = 0
budget (some job) =
    8 * (5 - job.reconcile_attempt) + (if is_terminal job.status then 0 else 8 - job.attempts)

-- A job that is not at its end has an attempt left.
abbrev pub has_room : Option Job → Bool
has_room none = true
has_room (some job) = is_terminal job.status || ltb job.attempts 8

-- One failure counted against the budget, or the end of the job.
abbrev pub Spent : Job → Job → Type 0
Spent b c =
    (c.reconcile_attempt ≡ b.reconcile_attempt)
    × ((is_terminal c.status ≡ true) ⊎ ((c.attempts ≡ b.attempts + 1) × (b.attempts + 1 < 8)))

circuit_feeds :
    (now : ℕ) (db : Circuits) (endpoint : JsString)
    → (db' : Circuits) × (record_circuit_failure (λ gap circuits. circuits) now db endpoint
        ≡ some db')
unfolding record_circuit_failure get_or_create_circuit
circuit_feeds now db endpoint = elim (Option-cases (lookup endpoint db)) [
  | inl gone ↦ rw gone (rw gone (_, refl))
  | inr (row, there) ↦ rw there (_, refl)
]

pub row-update :
    (job_id : JsString) (p : Job → Bool) (f : Job → Job) (jobs : JsMap Job) {b : Job}
    → lookup job_id jobs ≡ some b
    → p b ≡ true
    → lookup job_id (update_where job_id p f jobs) ≡ some (f b)
row-update job_id p f jobs there hit = lookup-update_where_self job_id p f jobs there ∙ rw hit refl

-- An update after which the budget is not larger.
pub update-budget :
    (job_id : JsString) (p : Job → Bool) (f : Job → Job) (jobs : JsMap Job)
    → ((b : Job)
        → p b ≡ true
        → has_room (some b) ≡ true
        → (budget (some (f b)) ≤ budget (some b)) × (has_room (some (f b)) ≡ true))
    → has_room (lookup job_id jobs) ≡ true
    → (budget (lookup job_id (update_where job_id p f jobs)) ≤ budget (lookup job_id jobs))
      × (has_room (lookup job_id (update_where job_id p f jobs)) ≡ true)
update-budget job_id p f jobs ok room = elim (Option-cases (lookup job_id jobs)) [
  | inl gone ↦
      let e : lookup job_id (update_where job_id p f jobs) ≡ none =
        rw (lookup-update_where job_id job_id p f jobs, gone, str_eq_refl job_id) refl in
      rw (e, gone) (omega arith, refl)
  | inr (b, there) ↦
      let e = lookup-update_where_self job_id p f jobs there in
      elim (Bool-cases (p b)) [
        | inl hit ↦ rw (e, hit, there) (ok b hit (rw there at room))
        | inr miss ↦ rw (e, miss, there) (omega arith, rw there at room)
      ]
]

-- The row of the job pays for what was posted.
abbrev pub Pays : JsString → World → World → Type 0
Pays job_id w w' =
    (length w'.posts + budget (lookup job_id w'.jobs)
      ≤ length w.posts + budget (lookup job_id w.jobs))
    × (has_room (lookup job_id w'.jobs) ≡ true)

pub Spent-budget :
    (b c : Job)
    → Spent b c
    → is_terminal b.status ≡ false
    → b.attempts < 8
    → (suc (budget (some c)) ≤ budget (some b)) × (has_room (some c) ≡ true)
Spent-budget b c (g, inl over) live room = (ground arith, ground arith)
Spent-budget b c (g, inr (n, less)) live room = (ground arith, ground arith)

module _ (env : Env) (run : Run) (job_id : JsString) where
  pub settle-posts :
      (read : Job) (w : World) → (settle env (quiet run) job_id read w).1.posts ≡ w.posts
  unfolding settle succeed fail_job expire invalidate settle_retryable settle_counted send_again
      send
  settle-posts read w = ground arith

  settle_counted-Spent :
      (read b : Job) (w : World)
      → lookup job_id w.jobs ≡ some (counted b)
      → is_owned (quiet run) read.reconcile_attempt (counted b) ≡ true
      → (c : Job) × (lookup job_id
            (settle_counted env (quiet run) job_id read (b.attempts + 1) w).1.jobs
          ≡ some c)
        × Spent b c
  unfolding counted dead_lettered put_off is_terminal
  settle_counted-Spent read b w there owned =
      elim (Bool-cases (leb delivery_max_attempts (b.attempts + 1))) [
        | inl over ↦ (
          _,
          ap (lookup job_id) (
                buried-jobs env (quiet run) job_id read (b.attempts + 1) w (leb→le _ _ over) (
                  affects-some job_id (is_owned (quiet run) read.reconcile_attempt) w.jobs there
                  ∙ owned))
              ∙ row-update job_id (is_owned (quiet run) read.reconcile_attempt) _ w.jobs there
                  owned,
          (refl, inl refl),
        )
        | inr room ↦ (
          _,
          ap (lookup job_id)
                (waiting-jobs env (quiet run) job_id read (b.attempts + 1) w (ground arith))
              ∙ row-update job_id (is_owned (quiet run) read.reconcile_attempt) _ w.jobs there
                  owned,
          (refl, inr (refl, ground arith)),
        )
      ]

  settle_retryable-Spent :
      (read b : Job) (w : World)
      → lookup job_id w.jobs ≡ some b
      → is_owned (quiet run) read.reconcile_attempt b ≡ true
      → (c : Job) × (lookup job_id (settle_retryable env (quiet run) job_id read w).1.jobs ≡ some c)
        × Spent b c
  unfolding settle_retryable counted
  settle_retryable-Spent read b w there owned =
      let o = is_owned (quiet run) read.reconcile_attempt in
      let hit = affects-some job_id o w.jobs there ∙ owned in
      let row = row-update job_id o counted w.jobs there owned in
      let (circuits, fed) = circuit_feeds run.now_settle w.circuits read.inbox_url in
      rw (hit, row, settle_retryable, fed)
        (settle_counted-Spent read b
          (record w { jobs = update_where job_id o counted w.jobs; circuits = circuits }) row
          (counted-owned env (quiet run) job_id read.reconcile_attempt b owned))

  -- A response settles a row that is owned: the failure is counted, or the job is at its end.
  pub settle-Spent :
      (read b : Job) (w : World)
      → lookup job_id w.jobs ≡ some b
      → is_owned (quiet run) read.reconcile_attempt b ≡ true
      → (c : Job) × (lookup job_id (settle env (quiet run) job_id read w).1.jobs ≡ some c)
        × Spent b c
  unfolding settle fail_job failed_with delivered_at_time is_terminal
  settle-Spent read b w there owned =
      let o = is_owned (quiet run) read.reconcile_attempt in
      let gone = expire-jobs env (quiet run) job_id read w in
      let still = ap (lookup job_id) gone ∙ there in
      elim (Bool-cases (is_ok run.response)) [
        | inl ok ↦
            rw (ok, settle)
              (
                _,
                ap (lookup job_id) (succeed-jobs env (quiet run) job_id read w)
                    ∙ row-update job_id o (delivered_at_time run.now_settle) w.jobs there owned,
                (refl, inl refl),
              )
        | inr bad ↦ elim (Bool-cases (is_permanent_delivery_failure (status_of run.response))) [
          | inl permanent ↦
              rw (bad, permanent, settle)
                (
                  _,
                  row-update job_id o
                      (failed_with run.now_settle (build_error_message run.response))
                      (expire env (quiet run) read w).jobs still owned,
                  (refl, inl refl),
                )
          | inr transient ↦
              rw (bad, transient, settle)
                (settle_retryable-Spent read b (expire env (quiet run) read w) still owned)
        ]
      ]

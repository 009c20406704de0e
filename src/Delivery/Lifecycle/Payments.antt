-- ===== src/Delivery/Lifecycle/Payments.antt =====
-- What one delivery posts is paid from the budget of its job.
use yurucommu_core.Base.{
  Bool, if◌then◌else◌, ◌++◌, str_eq_refl, ℕ, ◌<◌, Bool, true, false, some, [], ◌∷◌, JsString, ◌≡◌,
  ◌⊎◌, ◌∙◌, refl, ap, inl, inr, arith, lookup, length-append, Bool-cases, Option-cases,
  update_where, affects-some, affects-none,
}
use yurucommu_core.Delivery.Jobs.{Sent, Job, is_terminal, status_eq, token_is, safe_endpoint_host}
use yurucommu_core.Delivery.Circuit.{check_circuit, allow, defer}
use yurucommu_core.Delivery.Invalidate.{Env}
use yurucommu_core.Delivery.Deliver.{
  Handling, Post, World, Run, is_claimable, claimed_by, is_owned, failed_with, fail_job,
  resolve_signing_actor,
}
use yurucommu_core.Delivery.Process.{
  send, send_again, settle, post_activity, claim, admit, consider, process_deliver_endpoint,
}
use yurucommu_core.Delivery.Lifecycle.Deliveries.{process-cases}
use yurucommu_core.Delivery.Lifecycle.Budgets.{
  quiet, budget, has_room, row-update, update-budget, Pays, Spent-budget, settle-posts,
  settle-Spent,
}
use yurucommu_core.Delivery.Lifecycle.Responses.{owned-live}

if-Pays :
    (job_id : JsString) (b : Bool) (w : World) (x y : Handling)
    → Pays job_id w x.1
    → Pays job_id w y.1
    → Pays job_id w (if b then x else y).1
if-Pays job_id true w x y e f = e
if-Pays job_id false w x y e f = f

module _ (env : Env) (run : Run) (job_id : JsString) where
  -- A job that fails without a POST.
  failing-Pays :
      (now : ℕ) (error : JsString) (fence : Job → Bool) (w : World)
      → has_room (lookup job_id w.jobs) ≡ true
      → Pays job_id w (fail_job now job_id error fence w).1
  unfolding fail_job failed_with is_terminal
  failing-Pays now error fence w room =
      let u =
        update-budget job_id fence (failed_with now error) w.jobs
          (λ b hit room'. (ground arith, refl)) room in
      (omega (arith, u.0), u.1)

  -- A claimed job is posted at most once, and a POST is paid.
  post-Pays :
      (read c : Job) (w : World)
      → lookup job_id w.jobs ≡ some c
      → is_owned (quiet run) read.reconcile_attempt c ≡ true
      → c.attempts < 8
      → Pays job_id w (post_activity env (quiet run) job_id read w).1
  unfolding post_activity
  post-Pays read c w there owned less =
      elim (Option-cases (lookup read.activity_ap_id w.activities)) [
        | inl gone ↦ rw (gone, post_activity) (failing-Pays run.now_claim _ _ w room)
        | inr (activity, found) ↦
            elim (Option-cases (resolve_signing_actor w activity.actor_ap_id)) [
              | inl unsigned ↦
                  rw (found, unsigned, post_activity) (failing-Pays run.now_claim _ _ w room)
              | inr (key, signed) ↦
                  rw (found, signed, post_activity)
                    (if-Pays job_id run.signs w _ _ (paid _) (omega arith, room))
            ]
      ]
    where
      live : is_terminal c.status ≡ false
      live = owned-live env (quiet run) job_id read.reconcile_attempt c owned

      room : has_room (lookup job_id w.jobs) ≡ true
      room = rw there (ground arith)

      paid :
          (p : Post)
          → Pays job_id w
              (settle env (quiet run) job_id read (record w { posts = w.posts ++ p ∷ [] })).1
      paid p =
          let posted : World = record w { posts = w.posts ++ p ∷ [] } in
          let (d, row, spent) = settle-Spent env run job_id read c posted there owned in
          let b = Spent-budget c d spent live less in
          let n = settle-posts env run job_id read posted in
          rw (row, there, n) (omega (arith, b.0, length-append w.posts (p ∷ [])), b.1)

  claimable-owned :
      (read b : Job)
      → is_claimable (quiet run) read b ≡ true
      → has_room (some b) ≡ true
      → (is_owned (quiet run) read.reconcile_attempt (claimed_by (quiet run) b) ≡ true)
        × (b.attempts < 8)
        × (budget (some (claimed_by (quiet run) b)) ≡ budget (some b))
  unfolding is_claimable is_owned claimed_by token_is status_eq is_terminal
  claimable-owned read b h room =
      (ground (arith, str_eq_refl run.processing_token), ground arith, ground arith)

  claim-Pays :
      (read : Job) (w : World)
      → has_room (lookup job_id w.jobs) ≡ true
      → Pays job_id w (claim env (quiet run) job_id read w).1
  unfolding claim claimed_by
  claim-Pays read w room = elim (Option-cases (lookup job_id w.jobs)) [
    | inl gone ↦
        let miss = affects-none job_id (is_claimable (quiet run) read) w.jobs gone in
        rw (miss, claim) (omega arith, room)
    | inr (b, there) ↦ elim (Bool-cases (is_claimable (quiet run) read b)) [
      | inr closed ↦
          let miss = affects-some job_id (is_claimable (quiet run) read) w.jobs there ∙ closed in
          rw (miss, claim) (omega arith, room)
      | inl open_ ↦
          let hit = affects-some job_id (is_claimable (quiet run) read) w.jobs there ∙ open_ in
          let row =
            row-update job_id (is_claimable (quiet run) read) (claimed_by (quiet run)) w.jobs there
              open_ in
          let c = claimable-owned read b open_ (rw there at room) in
          let k =
            post-Pays read (claimed_by (quiet run) b)
              (record w {
                jobs =
                    update_where job_id (is_claimable (quiet run) read) (claimed_by (quiet run))
                      w.jobs;
              })
              row c.0 c.1 in
          rw (hit, claim) (omega (arith, k.0, ap budget row, ap budget there, c.2), k.1)
    ]
  ]

  same-Pays :
      (w w' : World)
      → w'.jobs ≡ w.jobs
      → w'.posts ≡ w.posts
      → has_room (lookup job_id w.jobs) ≡ true
      → Pays job_id w w'
  same-Pays w w' e p room = rw (e, p) (omega arith, room)

  send-Pays :
      (s : Sent) (w : World)
      → has_room (lookup job_id w.jobs) ≡ true
      → Pays job_id w (send env (quiet run) s w).1
  unfolding send
  send-Pays s w room = elim (Bool-cases (env.accepts s)) [
    | inl taken ↦ rw taken (omega arith, room)
    | inr full ↦ rw full (omega arith, room)
  ]

  admit-Pays :
      (read : Job) (w : World)
      → has_room (lookup job_id w.jobs) ≡ true
      → Pays job_id w (admit env (quiet run) job_id read w).1
  unfolding admit send_again
  admit-Pays read w room = elim (Option-cases (safe_endpoint_host env.parse_url read.inbox_url)) [
    | inl unsafe ↦ rw (unsafe, admit) (failing-Pays run.now_read _ _ w room)
    | inr (host, safe) ↦
        elim (Option-cases
          (check_circuit (quiet run).circuit_others run.now_read w.circuits read.inbox_url)) [
            | inl throws ↦ rw (safe, throws, admit) (omega arith, room)
            | inr ((defer seconds, circuits), decided) ↦
                rw (safe, decided, admit) (send-Pays _ (record w { circuits = circuits }) room)
            | inr ((allow, circuits), decided) ↦
                rw (safe, decided, admit) (claim-Pays read (record w { circuits = circuits }) room)
          ]
  ]

  consider-kept :
      (read : Job) (w : World)
      → (((consider env (quiet run) job_id read w).1.jobs ≡ w.jobs)
          × ((consider env (quiet run) job_id read w).1.posts ≡ w.posts))
        ⊎ (consider env (quiet run) job_id read w ≡ admit env (quiet run) job_id read w)
  unfolding consider send_again send
  consider-kept read w = ground arith

  consider-Pays :
      (read : Job) (w : World)
      → has_room (lookup job_id w.jobs) ≡ true
      → Pays job_id w (consider env (quiet run) job_id read w).1
  consider-Pays read w room = elim (consider-kept read w) [
    | inl kept ↦ same-Pays w (consider env (quiet run) job_id read w).1 kept.0 kept.1 room
    | inr admitted ↦ rw admitted (admit-Pays read w room)
  ]

  pub delivery-Pays :
      (w : World)
      → has_room (lookup job_id w.jobs) ≡ true
      → Pays job_id w (process_deliver_endpoint env (quiet run) job_id w).1
  delivery-Pays w room = elim (process-cases env (quiet run) job_id w) [
    | inl idle ↦ rw idle (omega arith, room)
    | inr (read, same) ↦ rw same (consider-Pays read w room)
  ]

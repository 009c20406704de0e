-- ===== src/Delivery/Tests.antt =====
-- Deliveries and resolutions at concrete inputs.
use yurucommu_core.Base.{
  ℕ, List, length, ◌+◌, ◌≤◌, remove, none, modify, ◌≤◌, true, none, some, [], ◌∷◌, JsString, js,
  JsMap, lookup, ◌≡◌, refl, arith, str_eq, update_where, affects,
}
use yurucommu_core.Ssrf.Urls.{Url}
use yurucommu_core.Delivery.Jobs.{
  Job, dead_letter, status_eq, is_terminal, token_is, build_reconcile_job_message,
}
use yurucommu_core.Delivery.Invalidate.{Env}
use yurucommu_core.Delivery.Deliver.{
  Response, no_response, Point, before_claim, during_post, after_increment, World, Run, http,
  is_claimable, claimed_by, is_owned, counted,
}
use yurucommu_core.Delivery.Process.{claim, settle}
use yurucommu_core.Delivery.Process.Fences.{post-excludes, lost_job-no_write}
use yurucommu_core.Delivery.Reconcile.{Ledger, fresh_job, revived, process_reconcile_job}
use yurucommu_core.Delivery.Lifecycle.{JobSteps, done, next}
use yurucommu_core.Delivery.Lifecycle
use yurucommu_core.Delivery.Lifecycle.Failures.{
  Handled, delivery, revival, handle_all, failures_bounded,
}
use yurucommu_core.Delivery.Lifecycle.Revivals.{reconcile-once}
use yurucommu_core.Delivery.Resolutions
use yurucommu_core.Delivery.Resolutions.{
  Resolution, Resolutions, Claim, Outbox, claimed, failed, claim_delivery_resolution_job,
}
use yurucommu_core.Delivery.Resolutions.Budget.{IsBounded}
use yurucommu_core.Delivery.Resolutions.Runs
use yurucommu_core.Delivery.Resolutions.Runs.{Reaches, start, retry, Reaches-IsBounded}
use yurucommu_core.Delivery.Resolutions.Rounds.{failing_rounds, failing_rounds-failed}

abbrev https_url : Url
https_url = record {
  protocol = js "https:";
  username = [];
  password = [];
  host = js "example.com";
  hostname = js "example.com";
  port = [];
  pathname = js "/inbox";
  search = [];
  hash = [];
}

abbrev env : Env
env = record {
  parse_url = λ s. some https_url;
  sha256_hex = λ s. s;
  accepts = λ s. true;
  accepts_batch = λ messages. true;
  blocked_of = λ actors. some [];
}

abbrev run_of : JsString → Run
run_of token = record {
  queue_bound = true;
  now_read = 1000;
  now_claim = 1001;
  now_settle = 2000;
  processing_token = token;
  signs = true;
  response = http 503;
  random = 0;
  others = λ p w. w;
  circuit_others = λ gap circuits. circuits;
}

abbrev new_job : Job
new_job = fresh_job 900 (js "act") (js "https://example.com/inbox")

abbrev world : JsMap Job → World
world jobs = record {
  jobs = jobs;
  circuits = [];
  actor_cache = [];
  resolutions = [];
  activities = (js "act", record { raw_json = js "{}"; actor_ap_id = js "alice" }) ∷ [];
  actor_keys = (js "alice", js "key") ∷ [];
  community_keys = [];
  instance_keys = [];
  sent = [];
  posts = [];
}

abbrev first_world : World
first_world = world ((js "j", new_job) ∷ [])

-- While the first worker settles its failure, another one purges the job.
abbrev purge : Point → World → World
purge before_claim w = w
purge during_post w = w
purge after_increment w = record w { jobs = remove (js "j") w.jobs }

abbrev purged_run : Run
purged_run = record (run_of (js "t")) { others = purge }

-- The worker has counted a failure and waits for the circuit.
abbrev halfway : Job
halfway = counted (claimed_by (run_of (js "t")) new_job)

abbrev halfway_world : World
halfway_world = world ((js "j", halfway) ∷ [])

post-excludes_example :
    claim env (run_of (js "u")) (js "j") new_job halfway_world ≡ (some tt, halfway_world)
unfolding affects update_where is_claimable lookup modify str_eq status_eq is_terminal counted
    claimed_by
post-excludes_example =
    post-excludes env (js "j") (run_of (js "t")) (run_of (js "u")) new_job new_job first_world
      halfway_world refl refl refl refl refl (omega arith)

abbrev other_claimed : Job
other_claimed = claimed_by (run_of (js "u")) new_job

lost_job-no_write_example :
    ((settle env (run_of (js "t")) (js "j") new_job (world ((js "j", other_claimed) ∷ []))).0
      ≡ some tt)
    × ((j : JsString)
        → lookup j
            (settle env
              (run_of (js "t"))
              (js "j")
              new_job
              (world ((js "j", other_claimed) ∷ []))).1.jobs
          ≡ lookup j ((js "j", other_claimed) ∷ []))
unfolding lookup str_eq is_owned status_eq token_is claimed_by
lost_job-no_write_example =
    lost_job-no_write env (js "j") (run_of (js "t")) new_job (world ((js "j", other_claimed) ∷ []))
      refl refl

-- Nine deliveries, of which the first eight fail and the last finds the dead letter, and a revival
-- with another attempt.
abbrev at_time : ℕ → Response → Handled
at_time now response = delivery (record (run_of (js "t")) {
  now_read = now;
  now_claim = now;
  now_settle = now;
  response = response;
})

abbrev tries : List Handled
tries =
    at_time 1000 (http 503)
    ∷ at_time 90000000 (no_response (js "timeout"))
    ∷ at_time 180000000 (http 503)
    ∷ at_time 270000000 (http 503)
    ∷ at_time 360000000 (http 503)
    ∷ at_time 450000000 (http 429)
    ∷ at_time 540000000 (http 503)
    ∷ at_time 630000000 (http 503)
    ∷ at_time 720000000 (http 503)
    ∷ revival true 720000000 (build_reconcile_job_message 900 (js "j") 1) 1
    ∷ at_time 720000001 (http 200)
    ∷ []

failures_bounded_example :
    length (handle_all env (js "j") tries first_world).posts ≤ length first_world.posts + 48
unfolding lookup str_eq
failures_bounded_example =
    failures_bounded env (js "j") 900 (js "act") (js "https://example.com/inbox") tries first_world
      refl

abbrev dead_job : Job
dead_job = record new_job { status = dead_letter; dlq_pending = 1; attempts = 8 }

abbrev revived_job : Job
revived_job = revived 1000 1 dead_job

revived_claimed : JobSteps 0 0 revived_job (claimed_by (run_of (js "t")) revived_job)
unfolding claimed_by revived
revived_claimed = next done (Lifecycle.claim 1001 (js "t") revived_job (omega arith) refl)

abbrev later_ledger : Ledger
later_ledger = record { jobs = (js "j", claimed_by (run_of (js "t")) revived_job) ∷ []; sent = [] }

reconcile-once_example :
    (process_reconcile_job
      (λ s. true)
      true
      (λ jobs. jobs)
      5000
      (build_reconcile_job_message 900 (js "j") 1)
      (js "j")
      1
      later_ledger).1.jobs
    ≡ later_ledger.jobs
unfolding lookup str_eq
reconcile-once_example =
    reconcile-once (λ s. true) true (λ jobs. jobs) 1000 5000
      (build_reconcile_job_message 900 (js "j") 1) (js "j") 1 later_ledger dead_job revived_claimed
      refl

abbrev digest : JsString → JsString
digest s = s

abbrev resolution_id : JsString
resolution_id = js "resolve_actor|act|bob"

abbrev waiting_row : Resolution
waiting_row = record {
  activity_ap_id = js "act";
  recipient_actor_ap_id = js "bob";
  status = Resolutions.retry_wait;
  processing_token = none;
  attempts = 6;
  next_attempt_at = 100;
  last_error = none;
  created_at = 50;
  updated_at = 90;
  resolved_at = none;
}

abbrev rows : Resolutions
rows = (resolution_id, waiting_row) ∷ []

-- A row with one attempt left fails, and its claim is retried.
abbrev seventh : Claim
seventh = record { id = resolution_id; processing_token = js "t"; attempts = 6 }

abbrev outbox : Outbox
outbox = record { rows = rows; sent = [] }

abbrev claimed_rows : Resolutions
claimed_rows =
    (claim_delivery_resolution_job digest (λ r. r) 200 (js "t") (js "act") (js "bob") rows).1

won :
    claim_delivery_resolution_job digest (λ r. r) 200 (js "t") (js "act") (js "bob") rows
    ≡ (claimed seventh, claimed_rows)
unfolding claim_delivery_resolution_job Resolutions.compute_delivery_resolution_id lookup str_eq
    Resolutions.is_terminal Resolutions.is_claimable affects
won = refl

Reaches-IsBounded_example :
    IsBounded (Resolutions.retry_delivery_resolution_job 300 seventh (js "down") 60 claimed_rows).1
unfolding Resolutions.is_terminal
Reaches-IsBounded_example =
    Reaches-IsBounded digest (λ messages. true)
      (retry {s = outbox} {t = record outbox { rows = claimed_rows }} {earlier = outbox} (λ r. r)
        200 300 (js "t") (js "act") (js "bob") seventh claimed_rows (js "down") 60 start won
        (Runs.claim (λ r. r) 200 (js "t") (js "act") (js "bob") (claimed seventh) claimed_rows start
          start won))
      ((omega arith, (λ live. omega arith), (λ over. cc)), tt)

failing_rounds-failed_example :
    (last : Resolution) × (lookup
        (Resolutions.compute_delivery_resolution_id digest (js "act") (js "bob"))
        (failing_rounds digest (js "t") (js "act") (js "bob") (js "down") 2 200 rows)
      ≡ some last)
    × (last.status ≡ failed)
    × (last.attempts ≡ 8)
    × (last.processing_token ≡ none)
unfolding Resolutions.compute_delivery_resolution_id lookup str_eq Resolutions.is_claimable
failing_rounds-failed_example =
    failing_rounds-failed digest (js "t") (js "act") (js "bob") (js "down") 1 200 rows
      {row = waiting_row} refl refl refl

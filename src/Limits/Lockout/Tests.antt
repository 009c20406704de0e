-- ===== src/Limits/Lockout/Tests.antt =====
-- The lockout at concrete inputs.
use yurucommu_core.Base.{◌≡◌, refl, true, none, some, [], ◌∷◌, JsString, js, arith, lookup}
use yurucommu_core.Limits.Lockout.{
  Lockouts, clear_login_lockout, get_login_lockout_status, record_failed_login_attempt, to_status,
  unlocked_status,
}
use yurucommu_core.Limits.Lockout.Records.{no_faults, Represents, clear-Represents}
use yurucommu_core.Limits.Lockout.Locking.{
  fail_at, fail_record, five_failures_lock, lock_cut_short, record_failed-Represents,
}
use yurucommu_core.Limits.Lockout.Outage.{answers, first_tries, read_only, read_only_never_locks}

abbrev nobody : Lockouts
nobody = record { kv = []; fallback = [] }

abbrev client : JsString
client = js "auth-lockout:v1:192.0.2.7"

five_failures_lock_example :
    (get_login_lockout_status no_faults client 7000 (
      fail_at client
        (1000 ∷ 2000 ∷ 3000 ∷ 4000 ∷ 5000 ∷ 6000 ∷ [])
        (clear_login_lockout no_faults client nobody))).0
    ≡ record { locked = true; failed_attempts = 5; retry_after_seconds = 898 }
five_failures_lock_example =
    five_failures_lock client nobody 1000 2000 3000 4000 5000 7000 (6000 ∷ []) (omega arith)
      (omega arith) (omega arith) (omega arith) (omega arith, omega arith) (omega arith)
      (omega arith)

-- The fifth failure comes a second before the hour is over, and the lock ends two seconds later.
lock_cut_short_example :
    (get_login_lockout_status no_faults client 3601001 (
      fail_at client
        (1000 ∷ 2000 ∷ 3000 ∷ 4000 ∷ 3600000 ∷ [])
        (clear_login_lockout no_faults client nobody))).0
    ≡ unlocked_status
lock_cut_short_example =
    lock_cut_short client nobody 1000 2000 3000 4000 3600000 3601001 (omega arith) (omega arith)
      (omega arith) (omega arith) (omega arith) (omega arith) (omega arith)

record_failed-Represents_example :
    ((record_failed_login_attempt no_faults client 1000
        (clear_login_lockout no_faults client nobody)).0
      ≡ to_status (some (fail_record none 1000)) 1000)
    × Represents 1000 client
        (record_failed_login_attempt no_faults client 1000
          (clear_login_lockout no_faults client nobody)).1
        (some (fail_record none 1000))
record_failed-Represents_example =
    record_failed-Represents client 0 1000 (clear_login_lockout no_faults client nobody) none
      (clear-Represents client nobody) (omega arith)

read_only_never_locks_example :
    answers read_only client (1 ∷ 2 ∷ 3 ∷ 4 ∷ 5 ∷ 6 ∷ 7 ∷ []) nobody
    ≡ first_tries (1 ∷ 2 ∷ 3 ∷ 4 ∷ 5 ∷ 6 ∷ 7 ∷ [])
unfolding lookup
read_only_never_locks_example =
    read_only_never_locks client (1 ∷ 2 ∷ 3 ∷ 4 ∷ 5 ∷ 6 ∷ 7 ∷ []) nobody refl

-- ===== src/Limits/Lockout/Outage.antt =====
-- src/backend/lib/auth-lockout.ts where the key-value store can be read but not written, as when
-- its quota of writes is used up.
use yurucommu_core.Base.{
  ℕ, ◌≡◌, refl, true, false, none, List, [], ◌∷◌, JsString, lookup, str_eq_refl, lookup-remove,
}
use yurucommu_core.Runtime.MemoryKv
use yurucommu_core.Limits.Lockout.{
  LoginLockoutStatus, Lockouts, Faults, normalize_lockout_record, parse_lockout_record, read_record,
  write_record, next_record, is_locked, record_failed_login_attempt, to_status, is_after,
}

abbrev pub read_only : Faults
read_only = record { get_fails = false; put_fails = true; delete_fails = false }

-- Failed logins at the given times, and the status that each is answered with.
unfoldable pub answers : Faults → JsString → List ℕ → Lockouts → List LoginLockoutStatus
answers faults key [] s = []
answers faults key (t ∷ ts) s =
    let r = record_failed_login_attempt faults key t s in r.0 ∷ answers faults key ts r.1

abbrev pub first_try : LoginLockoutStatus
first_try = record { locked = false; failed_attempts = 1; retry_after_seconds = 0 }

abbrev pub first_tries : List ℕ → List LoginLockoutStatus
first_tries [] = []
first_tries (t ∷ ts) = first_try ∷ first_tries ts

one_try :
    (key : JsString) (t : ℕ) (s : Lockouts)
    → lookup key s.kv ≡ none
    → ((record_failed_login_attempt read_only key t s).0 ≡ first_try)
      × (lookup key (record_failed_login_attempt read_only key t s).1.kv ≡ none)
unfolding record_failed_login_attempt read_record write_record next_record is_locked to_status
    is_after normalize_lockout_record parse_lockout_record MemoryKv.get MemoryKv.delete
one_try key t s h = rw h (refl, rw (lookup-remove, str_eq_refl) refl)

-- While every `put` of the store throws and every `get` and `delete` succeeds, no number of failed
-- logins locks a client that has no record in the store: each of
-- them is answered as the first one.
pub read_only_never_locks :
    (key : JsString) (ts : List ℕ) (s : Lockouts)
    → lookup key s.kv ≡ none
    → answers read_only key ts s ≡ first_tries ts
unfolding answers
read_only_never_locks key [] s h = refl
read_only_never_locks key (t ∷ ts) s h =
    let r = one_try key t s h in
    rw (r.0, read_only_never_locks key ts (record_failed_login_attempt read_only key t s).1 r.1)

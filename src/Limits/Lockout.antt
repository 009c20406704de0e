-- ===== src/Limits/Lockout.antt =====
-- src/backend/lib/auth-lockout.ts: the lock that failed logins of a client put on it.
-- The key-value store is the one of src/backend/runtime/memory-kv.ts, with a record for the JSON
-- text that spells it; which of its calls throw is an argument. `now` is the same in all calls of
-- one operation, and `key` is the storage key of a client.
pub mod Records
pub mod Locking
pub mod Outage
mod Tests
use yurucommu_core.Base.{
  ℕ, ◌+◌, ◌-◌, ◌*◌, max, Bool, true, false, ◌&&◌, Option, none, some, JsString, JsMap, lookup,
  insert, remove, if◌then◌else◌, ltb, leb, ◌==◌, ceil_seconds, js,
}
use yurucommu_core.Base.Json.{
  Json, null, bool, nat, negative, fraction, str, arr, obj, Fields, field, prop,
}
use yurucommu_core.Runtime.MemoryKv
use yurucommu_core.Runtime.MemoryKv.{Entry, ttl_of}

pub record LoginLockoutStatus : Type 0 where
  pub locked : Bool
  pub failed_attempts : ℕ
  pub retry_after_seconds : ℕ

pub record LoginLockoutRecord : Type 0 where
  pub failed_attempts : ℕ
  pub first_failed_at : ℕ
  pub lockout_until : Option ℕ

abbrev pub max_failed_attempts : ℕ
max_failed_attempts = 5

abbrev pub lockout_ms : ℕ
lockout_ms = 15 * 60 * 1000

abbrev pub tracking_window_ms : ℕ
tracking_window_ms = 60 * 60 * 1000

-- `JSON.stringify(record)`, as the value that it parses to.
unfoldable pub stringify : LoginLockoutRecord → Json
stringify r = obj (
    field (js "failedAttempts") (nat r.failed_attempts) (
      field (js "firstFailedAt") (nat r.first_failed_at)
        (field (js "lockoutUntil") (until r.lockout_until) Fields.end)))
  where
    until : Option ℕ → Json
    until none = null
    until (some t) = nat t

-- A number of a stored record. The operations write natural numbers only.
abbrev number : Option Json → Option ℕ
number (some (nat n)) = some n
number _ = none

abbrev number_or_null : Option Json → Option (Option ℕ)
number_or_null (some null) = some none
number_or_null (some (nat n)) = some (some n)
number_or_null _ = none

abbrev build : Option ℕ → Option ℕ → Option (Option ℕ) → Option LoginLockoutRecord
build (some a) (some f) (some u) =
    some (record { failed_attempts = a; first_failed_at = f; lockout_until = u })
build _ _ _ = none

-- `none` is no text, or one that is not JSON.
unfoldable pub parse_lockout_record : Option Json → Option LoginLockoutRecord
parse_lockout_record (some (obj fs)) =
    build (number (prop (js "failedAttempts") fs)) (number (prop (js "firstFailedAt") fs))
      (number_or_null (prop (js "lockoutUntil") fs))
parse_lockout_record _ = none

-- `t !== null && t > now`
unfoldable pub is_after : ℕ → Option ℕ → Bool
is_after now none = false
is_after now (some t) = ltb now t

-- `t !== null && t <= now`
unfoldable pub is_past : ℕ → Option ℕ → Bool
is_past now none = false
is_past now (some t) = leb t now

unfoldable pub is_record_expired : LoginLockoutRecord → ℕ → Bool
is_record_expired r now =
    if is_past now r.lockout_until then true else ltb (r.first_failed_at + tracking_window_ms) now

unfoldable pub normalize_lockout_record : Option LoginLockoutRecord → ℕ → Option LoginLockoutRecord
normalize_lockout_record none now = none
normalize_lockout_record (some r) now = if is_record_expired r now then none else some r

abbrev pub unlocked_status : LoginLockoutStatus
unlocked_status = record { locked = false; failed_attempts = 0; retry_after_seconds = 0 }

abbrev retry_after : ℕ → Option ℕ → ℕ
retry_after now none = 0
retry_after now (some t) = if ltb now t then max 1 (ceil_seconds (t - now)) else 0

unfoldable pub to_status : Option LoginLockoutRecord → ℕ → LoginLockoutStatus
to_status none now = unlocked_status
to_status (some r) now = record {
  locked = is_after now r.lockout_until;
  failed_attempts = r.failed_attempts;
  retry_after_seconds = retry_after now r.lockout_until;
}

-- Which calls of the store throw during an operation.
pub record Faults : Type 0 where
  pub get_fails : Bool
  pub put_fails : Bool
  pub delete_fails : Bool

pub record Lockouts : Type 0 where
  pub kv : JsMap (Entry Json)
  pub fallback : JsMap LoginLockoutRecord

unfoldable pub fallback_read : JsString → ℕ → Lockouts → Option LoginLockoutRecord × Lockouts
fallback_read key now s = kept (normalize_lockout_record (lookup key s.fallback) now)
  where
    kept : Option LoginLockoutRecord → Option LoginLockoutRecord × Lockouts
    kept none = (none, record s { fallback = remove key s.fallback })
    kept (some r) = (some r, s)

unfoldable pub read_record : Faults → JsString → ℕ → Lockouts → Option LoginLockoutRecord × Lockouts
read_record faults key now s =
    if faults.get_fails
    then fallback_read key now s
    else kept (normalize_lockout_record (parse_lockout_record got.0) now)
  where
    got : Option Json × JsMap (Entry Json)
    got = MemoryKv.get now key s.kv

    after : Lockouts
    after = record s { kv = got.1 }

    kept : Option LoginLockoutRecord → Option LoginLockoutRecord × Lockouts
    kept (some r) = (some r, after)
    kept none =
        if faults.delete_fails
        then fallback_read key now after
        else (none, record after { kv = MemoryKv.delete key got.1 })

-- The rest of the lock, or of the tracking window. A `lockoutUntil` of 0 is no lock here.
unfoldable pub ttl_ms : LoginLockoutRecord → ℕ → ℕ
ttl_ms r now = rest r.lockout_until
  where
    window : ℕ
    window = tracking_window_ms + r.first_failed_at - now

    rest : Option ℕ → ℕ
    rest none = window
    rest (some t) = if t == 0 then window else t - now

unfoldable pub expiration_ttl : LoginLockoutRecord → ℕ → ℕ
expiration_ttl r now = max 60 (ceil_seconds (ttl_ms r now) + 60)

unfoldable pub write_record : Faults → JsString → LoginLockoutRecord → ℕ → Lockouts → Lockouts
write_record faults key r now s =
    if faults.put_fails
    then record s { fallback = insert key r s.fallback }
    else record s { kv = MemoryKv.put now key (stringify r) (ttl_of (expiration_ttl r now)) s.kv }

unfoldable pub get_login_lockout_status :
    Faults → JsString → ℕ → Lockouts → LoginLockoutStatus × Lockouts
get_login_lockout_status faults key now s = told (read_record faults key now s)
  where
    told : Option LoginLockoutRecord × Lockouts → LoginLockoutStatus × Lockouts
    told (r, s') = (to_status r now, s')

-- The record after one more failure.
unfoldable pub next_record : Option LoginLockoutRecord → ℕ → LoginLockoutRecord
next_record existing now = record {
  failed_attempts = failed_attempts;
  first_failed_at = first existing;
  lockout_until = if leb max_failed_attempts failed_attempts then some (now + lockout_ms) else none;
}
  where
    attempts : Option LoginLockoutRecord → ℕ
    attempts none = 0
    attempts (some r) = r.failed_attempts

    first : Option LoginLockoutRecord → ℕ
    first none = now
    first (some r) = r.first_failed_at

    failed_attempts : ℕ
    failed_attempts = attempts existing + 1

-- `existing?.lockoutUntil > now`, for a lock that there is
unfoldable pub is_locked : Option LoginLockoutRecord → ℕ → Bool
is_locked none now = false
is_locked (some r) now = is_after now r.lockout_until

unfoldable pub record_failed_login_attempt :
    Faults → JsString → ℕ → Lockouts → LoginLockoutStatus × Lockouts
record_failed_login_attempt faults key now s = counted (read_record faults key now s)
  where
    counted : Option LoginLockoutRecord × Lockouts → LoginLockoutStatus × Lockouts
    counted (existing, s') = if is_locked existing now then (to_status existing now, s') else (
      to_status (some (next_record existing now)) now,
      write_record faults key (next_record existing now) now s',
    )

unfoldable pub clear_login_lockout : Faults → JsString → Lockouts → Lockouts
clear_login_lockout faults key s = record {
  kv = if faults.delete_fails then s.kv else MemoryKv.delete key s.kv;
  fallback = remove key s.fallback;
}

-- ===== src/Limits/Lockout/Locking.antt =====
-- Sequences of failed logins of one client, of src/backend/lib/auth-lockout.ts: what the store
-- does to the client's record is what the record alone would go through.
use yurucommu_core.Base.{
  ℕ, ◌+◌, ◌-◌, ◌≤◌, ◌<◌, max, ◌≡◌, refl, true, false, Option, none, some, List, [], ◌∷◌, ◌++◌,
  JsString, if◌then◌else◌, leb, ceil_seconds, Bool-cases, Option-cases, arith, inl, inr, is_some,
}
use yurucommu_core.Limits.Lockout.{
  LoginLockoutRecord, Lockouts, is_after, is_past, is_record_expired, normalize_lockout_record,
  read_record, next_record, is_locked, record_failed_login_attempt, get_login_lockout_status,
  clear_login_lockout, to_status, tracking_window_ms, lockout_ms, unlocked_status,
}
use yurucommu_core.Limits.Lockout.Records.{
  no_faults, view, view-read_record, Represents, write_record-Represents, clear-Represents,
}

-- The record after a failed login, without the store.
unfoldable pub fail_record : Option LoginLockoutRecord → ℕ → LoginLockoutRecord
fail_record o now = counted (normalize_lockout_record o now)
  where
    counted : Option LoginLockoutRecord → LoginLockoutRecord
    counted none = next_record none now
    counted (some r) = if is_after now r.lockout_until then r else next_record (some r) now

normalize_twice :
    (o : Option LoginLockoutRecord) (t now : ℕ)
    → (if is_some (normalize_lockout_record o t) then normalize_lockout_record o now else none)
      ≡ normalize_lockout_record (normalize_lockout_record o t) now
unfolding normalize_lockout_record
normalize_twice none t now = refl
normalize_twice (some r) t now = ground arith

read_record-Represents :
    (key : JsString) (t u : ℕ) (s : Lockouts) (o : Option LoginLockoutRecord)
    → Represents t key s o
    → t ≤ u
    → Represents u key (read_record no_faults key u s).1 (normalize_lockout_record o u)
read_record-Represents key t u s o h le now le' =
    rw (view-read_record, h u le, h now (omega arith)) (normalize_twice o u now)

next_record_counts :
    (o : Option LoginLockoutRecord) (now : ℕ)
    → is_record_expired (next_record (normalize_lockout_record o now) now) now ≡ false
unfolding next_record normalize_lockout_record is_record_expired is_past
next_record_counts o now = ground arith

-- With a store whose calls succeed and that represents a record of the client from some time on,
-- a failed login at a later time answers with the status of the record that the failure alone
-- would make of it, and the store represents that record from then on.
pub record_failed-Represents :
    (key : JsString) (t now : ℕ) (s : Lockouts) (o : Option LoginLockoutRecord)
    → Represents t key s o
    → t ≤ now
    → ((record_failed_login_attempt no_faults key now s).0
        ≡ to_status (some (fail_record o now)) now)
      × Represents now key
          (record_failed_login_attempt no_faults key now s).1
          (some (fail_record o now))
unfolding record_failed_login_attempt fail_record is_locked
record_failed-Represents key t now s o h le =
    let counts = next_record_counts o now in
    let reading = read_record-Represents key t now s o h le in
    elim (Option-cases (normalize_lockout_record o now)) [
      | inl gone ↦
          let e : view key now s ≡ none = rw (h now le) gone in
          rw (gone, e)
            (refl, write_record-Represents key (next_record none now) now _ (rw gone at counts))
      | inr (r, there) ↦
          let e : view key now s ≡ some r = rw (h now le) there in
          elim (Bool-cases (is_after now r.lockout_until)) [
            | inl held ↦ rw (there, e, held) (refl, rw there at reading)
            | inr over ↦
                rw (there, e, over)
                  (
                    refl,
                    write_record-Represents key (next_record (some r) now) now _
                        (rw there at counts),
                  )
          ]
    ]

-- Failed logins at the given times.
unfoldable pub fail_at : JsString → List ℕ → Lockouts → Lockouts
fail_at key [] s = s
fail_at key (t ∷ ts) s = fail_at key ts (record_failed_login_attempt no_faults key t s).1

-- Times in order, from `t` to `now`.
abbrev pub InOrder : ℕ → List ℕ → ℕ → Type 0
InOrder t [] now = t ≤ now
InOrder t (x ∷ xs) now = (t ≤ x) × InOrder x xs now

InOrder-le : (t : ℕ) (ts : List ℕ) (now : ℕ) → InOrder t ts now → t ≤ now
InOrder-le t [] now h = h
InOrder-le t (x ∷ xs) now (l, h) = let k = InOrder-le x xs now h in omega arith

-- A failed login during a lock leaves the record alone.
fail_record_locked :
    (r : LoginLockoutRecord) (lock now : ℕ)
    → r.lockout_until ≡ some lock
    → now < lock
    → now ≤ r.first_failed_at + tracking_window_ms
    → fail_record (some r) now ≡ r
unfolding fail_record normalize_lockout_record is_after is_record_expired is_past
fail_record_locked r lock now e lt alive = ground arith

fail_at-Represents :
    (key : JsString) (t now : ℕ) (ts : List ℕ) (s : Lockouts) (r : LoginLockoutRecord) (lock : ℕ)
    → Represents t key s (some r)
    → r.lockout_until ≡ some lock
    → InOrder t ts now
    → now < lock
    → now ≤ r.first_failed_at + tracking_window_ms
    → view key now (fail_at key ts s) ≡ normalize_lockout_record (some r) now
unfolding fail_at
fail_at-Represents key t now [] s r lock h e order lt alive = h now order
fail_at-Represents key t now (x ∷ ts) s r lock h e (le, order) lt alive =
    let l = InOrder-le x ts now order in
    let same = fail_record_locked r lock x e (omega arith) (omega arith) in
    let next = (record_failed-Represents key t x s (some r) h le).1 in
    fail_at-Represents key x now ts _ r lock (rw same at next) e order lt alive

-- The record of five failures from `t1` to `t5`.
abbrev locked_record : ℕ → ℕ → LoginLockoutRecord
locked_record t1 t5 = record {
  failed_attempts = 5;
  first_failed_at = t1;
  lockout_until = some (t5 + lockout_ms);
}

-- A record of `n` failures that trips no lock.
abbrev counting : ℕ → ℕ → LoginLockoutRecord
counting n t1 = record { failed_attempts = n; first_failed_at = t1; lockout_until = none }

one_more :
    (n t1 t : ℕ)
    → t ≤ t1 + tracking_window_ms
    → fail_record (some (counting n t1)) t ≡ record (counting (n + 1) t1) {
      lockout_until = if leb 5 (n + 1) then some (t + lockout_ms) else none;
    }
unfolding fail_record normalize_lockout_record next_record is_record_expired is_past is_after
one_more n t1 t w = ground arith

first_failure : (t1 : ℕ) → fail_record none t1 ≡ counting 1 t1
unfolding fail_record normalize_lockout_record next_record
first_failure t1 = refl

counting-Represents :
    (key : JsString) (n t1 t x : ℕ) (s : Lockouts)
    → Represents t key s (some (counting n t1))
    → t ≤ x
    → x ≤ t1 + tracking_window_ms
    → Represents x key (record_failed_login_attempt no_faults key x s).1 (
        some (record (counting (n + 1) t1) {
          lockout_until = if leb 5 (n + 1) then some (x + lockout_ms) else none;
        }))
counting-Represents key n t1 t x s h le w =
    rw (one_more n t1 x w) at (record_failed-Represents key t x s (some (counting n t1)) h le).1

-- The store after five failed logins, the fifth within the hour that the first one begins.
pub five-Represents :
    (key : JsString) (s : Lockouts) (t1 t2 t3 t4 t5 : ℕ)
    → t1 ≤ t2
    → t2 ≤ t3
    → t3 ≤ t4
    → t4 ≤ t5
    → t5 ≤ t1 + tracking_window_ms
    → Represents t5 key
        (fail_at key (t1 ∷ t2 ∷ t3 ∷ t4 ∷ t5 ∷ []) (clear_login_lockout no_faults key s))
        (some (locked_record t1 t5))
unfolding fail_at
five-Represents key s t1 t2 t3 t4 t5 l2 l3 l4 l5 w =
    let first = record_failed-Represents key 0 t1 _ none (clear-Represents key s) (omega arith) in
    let a : Represents t1 key _ (some (counting 1 t1)) = rw first_failure at first.1 in
    let b = counting-Represents key 1 t1 t1 t2 _ a l2 (omega arith) in
    let c = counting-Represents key 2 t1 t2 t3 _ b l3 (omega arith) in
    let d = counting-Represents key 3 t1 t3 t4 _ c l4 (omega arith) in
    counting-Represents key 4 t1 t4 t5 _ d l5 w

status_of :
    (key : JsString) (now : ℕ) (s : Lockouts)
    → (get_login_lockout_status no_faults key now s).0 ≡ to_status (view key now s) now
unfolding get_login_lockout_status
status_of key now s = refl

fail_at-append :
    (key : JsString) (ts us : List ℕ) (s : Lockouts)
    → fail_at key (ts ++ us) s ≡ fail_at key us (fail_at key ts s)
unfolding fail_at
fail_at-append key [] us s = refl
fail_at-append key (t ∷ ts) us s =
    fail_at-append key ts us (record_failed_login_attempt no_faults key t s).1

-- With a store whose calls succeed, and from a cleared record on, five failed logins of a client
-- in order lock it out for a quarter of an hour from the fifth on, as long as the hour that
-- begins with the first one lasts, and the failures that it adds meanwhile do not extend the
-- lock: until then its status is locked, with the rest of the lock in seconds rounded up.
pub five_failures_lock :
    (key : JsString) (s : Lockouts) (t1 t2 t3 t4 t5 now : ℕ) (ts : List ℕ)
    → t1 ≤ t2
    → t2 ≤ t3
    → t3 ≤ t4
    → t4 ≤ t5
    → InOrder t5 ts now
    → now < t5 + lockout_ms
    → now ≤ t1 + tracking_window_ms
    → (get_login_lockout_status no_faults key now
        (fail_at key (t1 ∷ t2 ∷ t3 ∷ t4 ∷ t5 ∷ ts) (clear_login_lockout no_faults key s))).0
      ≡ record {
        locked = true;
        failed_attempts = 5;
        retry_after_seconds = max 1 (ceil_seconds (t5 + lockout_ms - now));
      }
unfolding to_status normalize_lockout_record is_record_expired is_past is_after
five_failures_lock key s t1 t2 t3 t4 t5 now ts l2 l3 l4 l5 order lock hour =
    let le = InOrder-le t5 ts now order in
    let five = five-Represents key s t1 t2 t3 t4 t5 l2 l3 l4 l5 (omega arith) in
    let stays =
      fail_at-Represents key t5 now ts _ (locked_record t1 t5) (t5 + lockout_ms) five refl order
        lock hour in
    rw (status_of, fail_at-append key (t1 ∷ t2 ∷ t3 ∷ t4 ∷ t5 ∷ []) ts, stays) (ground arith)

-- With a store whose calls succeed, and from a cleared record on, a client whose five failures
-- in order came within an hour is unlocked, with no failure counted, as soon as that hour is
-- over, even where less than a quarter of an hour has passed since the fifth failure.
pub lock_cut_short :
    (key : JsString) (s : Lockouts) (t1 t2 t3 t4 t5 now : ℕ)
    → t1 ≤ t2
    → t2 ≤ t3
    → t3 ≤ t4
    → t4 ≤ t5
    → t5 ≤ t1 + tracking_window_ms
    → t5 ≤ now
    → t1 + tracking_window_ms < now
    → (get_login_lockout_status no_faults key now
        (fail_at key (t1 ∷ t2 ∷ t3 ∷ t4 ∷ t5 ∷ []) (clear_login_lockout no_faults key s))).0
      ≡ unlocked_status
unfolding to_status normalize_lockout_record is_record_expired is_past is_after
lock_cut_short key s t1 t2 t3 t4 t5 now l2 l3 l4 l5 near le late =
    rw (status_of, five-Represents key s t1 t2 t3 t4 t5 l2 l3 l4 l5 near now le) (ground arith)

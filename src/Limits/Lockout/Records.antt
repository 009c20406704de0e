-- ===== src/Limits/Lockout/Records.antt =====
-- The stored record of a client, read back through JSON and the expiring store, against the
-- record alone.
use yurucommu_core.Base.{
  ℕ, ◌+◌, ◌*◌, ◌/◌, ◌≤◌, ◌<◌, ◌≡◌, refl, true, false, Option, none, some, JsString, JsMap,
  if◌then◌else◌, ltb, ltb→lt, is_some, Bool-cases, str_eq, str_eq_refl, arith, inl, inr,
}
use yurucommu_core.Base.Json.{Json, prop}
use yurucommu_core.Runtime.MemoryKv
use yurucommu_core.Runtime.MemoryKv.{Entry, ttl_of, resolve_expiration, is_expired}
use yurucommu_core.Runtime.MemoryKv.Laws.{get-put, get-delete}
use yurucommu_core.Limits.Lockout.{
  LoginLockoutRecord, Faults, Lockouts, stringify, parse_lockout_record, is_past, is_record_expired,
  normalize_lockout_record, read_record, write_record, ttl_ms, expiration_ttl, clear_login_lockout,
}

-- Every call of the store succeeds.
abbrev pub no_faults : Faults
no_faults = record { get_fails = false; put_fails = false; delete_fails = false }

pub parse-stringify : (r : LoginLockoutRecord) → parse_lockout_record (some (stringify r)) ≡ some r
unfolding parse_lockout_record stringify prop str_eq
parse-stringify r = ground arith

-- The record of a client, as an operation at `now` reads it.
abbrev pub view : JsString → ℕ → Lockouts → Option LoginLockoutRecord
view key now s = (read_record no_faults key now s).0

pub view_value :
    (key : JsString) (now : ℕ) (s : Lockouts)
    → view key now s
      ≡ normalize_lockout_record (parse_lockout_record (MemoryKv.get now key s.kv).0) now
unfolding read_record
view_value key now s = ground arith

expiration_ttl_pos : (r : LoginLockoutRecord) (t : ℕ) → 0 < expiration_ttl r t
unfolding expiration_ttl
expiration_ttl_pos r t = ground arith

-- The store keeps an entry for longer than its record counts.
pub kept_until_expired :
    (r : LoginLockoutRecord) (t now : ℕ)
    → is_record_expired r t ≡ false
    → (t / 1000 + expiration_ttl r t) * 1000 < now
    → is_record_expired r now ≡ true
unfolding is_record_expired is_past expiration_ttl ttl_ms
kept_until_expired r t now h late = ground arith

-- A record that is written at `t` is there until it expires, whatever the store itself drops.
pub view-write_record :
    (key : JsString) (r : LoginLockoutRecord) (t now : ℕ) (s : Lockouts)
    → is_record_expired r t ≡ false
    → t ≤ now
    → view key now (write_record no_faults key r t s) ≡ normalize_lockout_record (some r) now
unfolding write_record normalize_lockout_record parse_lockout_record
view-write_record key r t now s h le =
    let got =
      get-put t now (expiration_ttl r t) key key (stringify r) s.kv (expiration_ttl_pos r t) in
    rw (view_value, got, str_eq_refl)
      (elim (Bool-cases (ltb ((t / 1000 + expiration_ttl r t) * 1000) now)) [
        | inl late ↦ rw (late, kept_until_expired r t now h (ltb→lt _ _ late)) refl
        | inr there ↦ rw (there, parse-stringify r) refl
      ])

-- What a client's record is at the time `t` and after it, in every reading.
abbrev pub Represents : ℕ → JsString → Lockouts → Option LoginLockoutRecord → Type 0
Represents t key s o = (now : ℕ) → t ≤ now → view key now s ≡ normalize_lockout_record o now

pub write_record-Represents :
    (key : JsString) (r : LoginLockoutRecord) (t : ℕ) (s : Lockouts)
    → is_record_expired r t ≡ false
    → Represents t key (write_record no_faults key r t s) (some r)
write_record-Represents key r t s h now le = view-write_record key r t now s h le

get_some :
    (t : ℕ) (key : JsString) (m : JsMap (Entry Json))
    → is_some (MemoryKv.get t key m).0 ≡ true
    → (MemoryKv.get t key m).1 ≡ m
unfolding MemoryKv.get
get_some t key m h = ground arith

normalize_some :
    (o : Option Json) (t : ℕ)
    → is_some (normalize_lockout_record (parse_lockout_record o) t) ≡ true
    → is_some o ≡ true
unfolding normalize_lockout_record parse_lockout_record
normalize_some none t h = h
normalize_some (some v) t h = refl

-- A reading that finds a record changes nothing, and one that finds none deletes the entry.
after_reading :
    (key : JsString) (t : ℕ) (s : Lockouts)
    → (read_record no_faults key t s).1 ≡ (
        if is_some (view key t s)
        then s
        else record s { kv = MemoryKv.delete key (MemoryKv.get t key s.kv).1 })
unfolding read_record
after_reading key t s =
    ground (arith, get_some t key s.kv, normalize_some (MemoryKv.get t key s.kv).0 t)

pub view-read_record :
    (key : JsString) (t now : ℕ) (s : Lockouts)
    → view key now (read_record no_faults key t s).1
      ≡ (if is_some (view key t s) then view key now s else none)
unfolding normalize_lockout_record parse_lockout_record
view-read_record key t now s = elim (Bool-cases (is_some (view key t s))) [
  | inl found ↦ rw (after_reading, found) refl
  | inr gone ↦ rw (after_reading, gone, view_value, get-delete, str_eq_refl) refl
]

pub clear-Represents :
    (key : JsString) (s : Lockouts) → Represents 0 key (clear_login_lockout no_faults key s) none
unfolding clear_login_lockout normalize_lockout_record parse_lockout_record
clear-Represents key s now le = rw (view_value, get-delete, str_eq_refl) refl

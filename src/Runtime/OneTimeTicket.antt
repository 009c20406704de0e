-- ===== src/Runtime/OneTimeTicket.antt =====
-- src/backend/runtime/one-time-ticket.ts: the tickets with which a browser opens a socket. The
-- digest of a string (SHA-256 in hex) and the random text of a ticket are arguments.
pub mod SingleUse
mod Tests
use yurucommu_core.Base.{
  ℕ, zero, suc, ◌+◌, Bool, true, false, not, Option, none, some, List, [], ◌∷◌, ◌++◌, JsString,
  JsMap, lookup, insert, remove, str_eq, starts_with, if◌then◌else◌, ltb, leb, length, get_or_else,
  any,
}

pub record StoredTicket : Type 0 where
  pub hash : JsString
  pub expires_at : ℕ

abbrev pub Storage : Type 0
Storage = JsMap StoredTicket

pub record OneTimeTicketOptions : Type 0 where
  pub prefix : JsString
  pub ttl_ms : Option ℕ
  pub max_outstanding : Option ℕ

abbrev pub default_ttl_ms : ℕ
default_ttl_ms = 60000

abbrev pub default_max_outstanding : ℕ
default_max_outstanding = 8

-- `storage.list({ prefix })`
unfoldable pub list_prefix : JsString → Storage → Storage
list_prefix prefix [] = []
list_prefix prefix ((key, value) ∷ storage) =
    let rest = list_prefix prefix storage in
    if starts_with key prefix then (key, value) ∷ rest else rest

unfoldable pub live_tickets : ℕ → Storage → Storage
live_tickets now [] = []
live_tickets now ((key, value) ∷ storage) =
    let rest = live_tickets now storage in
    if ltb now value.expires_at then (key, value) ∷ rest else rest

-- Sorting by the time of expiry, equal ones in their order.
unfoldable pub insert_by_expiry : JsString × StoredTicket → Storage → Storage
insert_by_expiry e [] = e ∷ []
insert_by_expiry e (f ∷ fs) =
    let rest = insert_by_expiry e fs in
    if leb e.1.expires_at f.1.expires_at then e ∷ f ∷ fs else f ∷ rest

unfoldable pub sort_by_expiry : Storage → Storage
sort_by_expiry [] = []
sort_by_expiry (e ∷ es) = insert_by_expiry e (sort_by_expiry es)

abbrev pub has_key : JsString → Storage → Bool
has_key key [] = false
has_key key ((j, v) ∷ es) = if str_eq j key then true else has_key key es

-- The stored keys that are not live are deleted.
unfoldable pub delete_dead : Storage → Storage → Storage → Storage
delete_dead live [] storage = storage
delete_dead live ((key, value) ∷ stored) storage =
    delete_dead live stored (if has_key key live then storage else remove key storage)

-- `while (live.length >= maxOutstanding)`, the oldest first. `false` is a thrown error: no entry is
-- left to take from the list, as happens with a maximum of 0.
unfoldable pub delete_oldest : ℕ → Storage → Storage → Bool × Storage
delete_oldest max_outstanding [] storage = (not (leb max_outstanding 0), storage)
delete_oldest max_outstanding ((key, value) ∷ live) storage =
    let rest = delete_oldest max_outstanding live (remove key storage) in
    if leb max_outstanding (length ((key, value) ∷ live)) then rest else (true, storage)

module _ (sha256_hex : JsString → JsString) where
  -- The ticket that was drawn, or `none` where the source throws, and the storage afterwards.
  unfoldable pub mint_one_time_ticket :
      JsString → ℕ → OneTimeTicketOptions → Storage → Option JsString × Storage
  mint_one_time_ticket ticket now options storage =
      let hash = sha256_hex ticket in
      let stored = list_prefix options.prefix storage in
      let live = sort_by_expiry (live_tickets now stored) in
      let cleaned = delete_dead live stored storage in
      let shed =
        delete_oldest (get_or_else options.max_outstanding default_max_outstanding) live cleaned in
      if shed.0
      then (
        some ticket,
        insert (options.prefix ++ hash)
            (record { hash = hash; expires_at = now + get_or_else options.ttl_ms default_ttl_ms })
            shed.1,
      )
      else (none, shed.1)

  -- Two strings compared through their digests.
  unfoldable pub timing_safe_equal_strings : JsString → JsString → Bool
  timing_safe_equal_strings a b = str_eq (sha256_hex a) (sha256_hex b)

  unfoldable pub consume_one_time_ticket :
      JsString → ℕ → OneTimeTicketOptions → Storage → Bool × Storage
  consume_one_time_ticket ticket now options storage = found (lookup key storage)
    where
      key : JsString
      key = options.prefix ++ sha256_hex ticket

      found : Option StoredTicket → Bool × Storage
      found none = (false, storage)
      found (some stored) = (
        if leb stored.expires_at now
            then false
            else timing_safe_equal_strings stored.hash (sha256_hex ticket),
        remove key storage,
      )

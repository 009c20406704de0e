-- ===== src/Realtime/Storage.antt =====
-- src/backend/runtime/realtime-stream-do.ts: the repository over the storage of a Durable Object. An
-- event's key is a text of its number in a fixed width; here it is the number.
pub mod Laws
pub mod Missed
pub mod Upgrades
use yurucommu_core.Base.{
  ℕ, suc, ◌+◌, ◌-◌, ◌≤◌, ◌<◌, Bool, Option, none, some, List, [], ◌∷◌, ◌++◌, JsString, js, ◌≡◌,
  arith, refl, if◌then◌else◌, ltb, ◌==◌, get_or_else, length, length-append, get_elem?,
}
use yurucommu_core.Runtime.OneTimeTicket
use yurucommu_core.Runtime.OneTimeTicket.{
  OneTimeTicketOptions, mint_one_time_ticket, consume_one_time_ticket,
}
use yurucommu_core.Realtime.Stream.{RealtimeEvent, Repository, Retains, IsRepository}

pub record DoStorage : Type 0 where
  pub seq : Option ℕ
  pub events : List (ℕ × RealtimeEvent)
  pub tickets : OneTimeTicket.Storage

unfoldable pub event_of : ℕ → List (ℕ × RealtimeEvent) → Option RealtimeEvent
event_of k [] = none
event_of k ((j, e) ∷ events) = let rest = event_of k events in if j == k then some e else rest

unfoldable pub without : ℕ → List (ℕ × RealtimeEvent) → List (ℕ × RealtimeEvent)
without k [] = []
without k ((j, e) ∷ events) = let rest = without k events in if j == k then rest else (j, e) ∷ rest

abbrev pub ticket_options : OneTimeTicketOptions
ticket_options = record { prefix = js "ticket:"; ttl_ms = none; max_outstanding = none }

unfoldable pub append : RealtimeEvent → ℕ → DoStorage → DoStorage
append e retain s =
    let stored = (e.id, e) ∷ without e.id s.events in
    record s {
      seq = some e.id;
      events = if ltb retain e.id then without (e.id - retain) stored else stored;
    }

-- The time and the random text of a ticket are drawn outside.
module _ (sha256_hex : JsString → JsString) (now : ℕ) (drawn : JsString) where
  abbrev pub do_repository : Repository DoStorage
  do_repository = record {
    current_seq = λ s. get_or_else s.seq 0;
    append_event = append;
    event_at = λ seq s. event_of seq s.events;
    mint_ticket = λ s.
        let r = mint_one_time_ticket sha256_hex drawn now ticket_options s.tickets in
        (r.0, record s { tickets = r.1 });
    consume_ticket = λ ticket s.
        let r = consume_one_time_ticket sha256_hex ticket now ticket_options s.tickets in
        (r.0, record s { tickets = r.1 });
  }

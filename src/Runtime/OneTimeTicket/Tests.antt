-- ===== src/Runtime/OneTimeTicket/Tests.antt =====
-- A ticket at concrete times, with the text itself for its digest.
use yurucommu_core.Base.{
  ◌+◌, ◌≡◌, false, some, refl, Option, JsString, lookup, insert, remove, starts_with, str_eq, none,
  [], js, ltb, get_or_else,
}
use yurucommu_core.Runtime.OneTimeTicket.{
  OneTimeTicketOptions, default_ttl_ms, mint_one_time_ticket, consume_one_time_ticket, Storage,
  delete_oldest, delete_dead, sort_by_expiry, insert_by_expiry, live_tickets, list_prefix,
}
use yurucommu_core.Runtime.OneTimeTicket.SingleUse.{accepted_once}

abbrev socket_options : OneTimeTicketOptions
socket_options = record { prefix = js "ticket:"; ttl_ms = none; max_outstanding = none }

abbrev minted : Option JsString × Storage
minted = mint_one_time_ticket (λ s. s) (js "t") 1000 socket_options []

-- Another ticket was minted since.
abbrev two_tickets : Storage
two_tickets = (mint_one_time_ticket (λ s. s) (js "u") 1200 socket_options minted.1).1

accepted_once_example :
    (minted.0 ≡ some (js "t"))
    × ((consume_one_time_ticket (λ s. s) (js "t") 1500 socket_options two_tickets).0
        ≡ ltb 1500 (1000 + get_or_else socket_options.ttl_ms default_ttl_ms))
    × ((consume_one_time_ticket
          (λ s. s)
          (js "t")
          1600
          socket_options
          (consume_one_time_ticket (λ s. s) (js "t") 1500 socket_options two_tickets).1).0
        ≡ false)
unfolding mint_one_time_ticket delete_oldest delete_dead sort_by_expiry insert_by_expiry
    live_tickets list_prefix starts_with str_eq insert lookup
accepted_once_example =
    accepted_once (λ s. s) (js "t") 1000 1500 1600 socket_options [] two_tickets refl refl

abbrev no_tickets : OneTimeTicketOptions
no_tickets = record { prefix = js "ticket:"; ttl_ms = none; max_outstanding = some 0 }

-- With no ticket allowed, minting throws and stores nothing.
none_minted : mint_one_time_ticket (λ s. s) (js "t") 1000 no_tickets minted.1 ≡ (none, [])
unfolding mint_one_time_ticket delete_oldest delete_dead sort_by_expiry insert_by_expiry
    live_tickets list_prefix starts_with str_eq insert remove
none_minted = refl

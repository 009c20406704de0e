-- ===== src/Realtime/Storage/Upgrades.antt =====
-- Upgrades of the stream over the storage of a Durable Object.
use yurucommu_core.Base.{ℕ, Option, some, JsString, js, ◌≡◌, ◌⊎◌, arith, str_eq}
use yurucommu_core.Runtime.OneTimeTicket.SingleUse.{refused_after_consume}
use yurucommu_core.Realtime.Stream.{handle_upgrade}
use yurucommu_core.Realtime.Storage.{DoStorage, do_repository, ticket_options}

module _ (sha256_hex : JsString → JsString) where
  -- After a ticket was presented, whether or not it opened a socket then, every later upgrade with it
  -- in the storage that is left is refused with 401, or with 426 if it is no upgrade.
  pub upgrade-once :
      (now later : ℕ) (drawn drawn' : JsString) (upgrade : Option JsString) (ticket : JsString)
      (s : DoStorage)
      → let websocket = some (js "websocket") in
        let ticketed = some (js "ticket") in
        let first =
          handle_upgrade DoStorage
            (do_repository sha256_hex now drawn)
            websocket
            ticketed
            (some ticket)
            s in
        let second =
          handle_upgrade DoStorage
            (do_repository sha256_hex later drawn')
            upgrade
            ticketed
            (some ticket)
            first.1 in
        (second.0 ≡ some 401) ⊎ (second.0 ≡ some 426)
  unfolding handle_upgrade str_eq
  upgrade-once now later drawn drawn' upgrade ticket s =
      ground (arith, refused_after_consume sha256_hex ticket now later ticket_options s.tickets)

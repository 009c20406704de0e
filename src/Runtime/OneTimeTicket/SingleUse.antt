-- ===== src/Runtime/OneTimeTicket/SingleUse.antt =====
-- A ticket of src/backend/runtime/one-time-ticket.ts from minting to its use.
use yurucommu_core.Base.{
  ℕ, ◌+◌, ◌≡◌, refl, false, none, ◌++◌, JsString, lookup, str_eq_refl, lookup-insert_self,
  lookup-remove_self, ltb, true, some, [], ◌∷◌, remove, get_or_else, Option-cases, inl, inr, arith,
}
use yurucommu_core.Runtime.OneTimeTicket.{
  Storage, OneTimeTicketOptions, default_ttl_ms, mint_one_time_ticket, consume_one_time_ticket,
  timing_safe_equal_strings, delete_oldest, delete_dead, sort_by_expiry, live_tickets, list_prefix,
  default_max_outstanding,
}

module _ (sha256_hex : JsString → JsString) where
  -- A ticket is gone after it was presented, with whatever verdict.
  consumed :
      (ticket : JsString) (now : ℕ) (options : OneTimeTicketOptions) (storage : Storage)
      → lookup
          (options.prefix ++ sha256_hex ticket)
          (consume_one_time_ticket sha256_hex ticket now options storage).1
        ≡ none
  unfolding consume_one_time_ticket
  consumed ticket now options storage =
      elim (Option-cases (lookup (options.prefix ++ sha256_hex ticket) storage)) [
        | inl gone ↦ rw gone gone
        | inr (v, there) ↦
            rw there (lookup-remove_self (options.prefix ++ sha256_hex ticket) storage)
      ]

  -- A ticket that was presented is refused ever after, whatever the first verdict was.
  pub refused_after_consume :
      (ticket : JsString) (now later : ℕ) (options : OneTimeTicketOptions) (storage : Storage)
      → (consume_one_time_ticket sha256_hex ticket later options
          (consume_one_time_ticket sha256_hex ticket now options storage).1).0
        ≡ false
  unfolding consume_one_time_ticket
  refused_after_consume ticket now later options storage =
      rw (consumed ticket now options storage) refl

  not_thrown :
      (max_outstanding : ℕ) (live storage : Storage)
      → ltb 0 max_outstanding ≡ true
      → (delete_oldest max_outstanding live storage).0 ≡ true
  unfolding delete_oldest
  not_thrown max_outstanding [] storage h = ground arith
  not_thrown max_outstanding ((key, value) ∷ live) storage h =
      ground (arith, not_thrown max_outstanding live (remove key storage) h)

  -- If at least one ticket may be outstanding, minting returns the ticket. In every later storage in
  -- which the record of that ticket still stands as it was minted, not shed by a later mint and not
  -- used up, the ticket is accepted the first time that it is presented, up to the end of its time
  -- to live and not from then on, and in the storage left then it is refused.
  pub accepted_once :
      (ticket : JsString) (minted now later : ℕ) (options : OneTimeTicketOptions)
      (storage storage' : Storage)
      → ltb 0 (get_or_else options.max_outstanding default_max_outstanding) ≡ true
      → let mint = mint_one_time_ticket sha256_hex ticket minted options storage in
        lookup (options.prefix ++ sha256_hex ticket) storage'
          ≡ lookup (options.prefix ++ sha256_hex ticket) mint.1
        → (mint.0 ≡ some ticket)
          × ((consume_one_time_ticket sha256_hex ticket now options storage').0
              ≡ ltb now (minted + get_or_else options.ttl_ms default_ttl_ms))
          × ((consume_one_time_ticket sha256_hex ticket later options
                (consume_one_time_ticket sha256_hex ticket now options storage').1).0
              ≡ false)
  unfolding consume_one_time_ticket mint_one_time_ticket timing_safe_equal_strings
  accepted_once ticket minted now later options storage storage' h k =
      let live = sort_by_expiry (live_tickets minted (list_prefix options.prefix storage)) in
      let cleaned = delete_dead live (list_prefix options.prefix storage) storage in
      let t =
        not_thrown (get_or_else options.max_outstanding default_max_outstanding) live cleaned h in
      let there = rw (t, lookup-insert_self (options.prefix ++ sha256_hex ticket)) at k in
      (
        rw t refl,
        rw there (rw (str_eq_refl (sha256_hex (sha256_hex ticket))) (ground arith)),
        refused_after_consume ticket now later options storage',
      )

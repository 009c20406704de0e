-- ===== src/Delivery/Resolutions/Sweeps.antt =====
-- What a sweep of the resolution outbox leaves behind.
use yurucommu_core.Base.{
  ℕ, ◌+◌, ◌<◌, Bool, true, ◌&&◌, Option, none, List, [], ◌∷◌, JsString, ◌≡◌, arith, lookup, is_some,
  if-Holds, AllEntries, update_all-AllEntries, update_all-establishes,
}
use yurucommu_core.Delivery.Jobs.{QueueMessage}
use yurucommu_core.Delivery.Resolutions.{
  Resolution, Resolutions, Outbox, is_out, is_waiting, send_rows, messages_of, queued_at,
  stale_resolution_ms, enqueue_pending_delivery_resolution_jobs,
}

-- A row that is queued or being processed was touched within the last two minutes.
abbrev pub IsFresh : ℕ → Resolution → Type 0
IsFresh now row = is_out row.status ≡ true → now < row.updated_at + stale_resolution_ms

AllEntries-any {ℓ} :
    {V : Type ℓ} (m : List (JsString × V)) → AllEntries (λ (k : JsString) (v : V). Unit {0}) m
AllEntries-any [] = tt
AllEntries-any (e ∷ m) = (tt, AllEntries-any m)

module _ (sha256_hex : JsString → JsString) (accepts : List QueueMessage → Bool) where
  send_rows-IsFresh :
      (taken : Resolutions) (now : ℕ) (s : Outbox)
      → AllEntries (λ k row. IsFresh now row) s.rows
      → AllEntries (λ k row. IsFresh now row) (send_rows sha256_hex accepts taken now s).1.rows
  unfolding send_rows
  send_rows-IsFresh [] now s h = h
  send_rows-IsFresh (r ∷ rs) now s h =
      if-Holds (λ (x : Option ℕ × Outbox). AllEntries (λ k row. IsFresh now row) x.1.rows)
        (accepts (messages_of sha256_hex now (r ∷ rs))) _ (none, s)
        (update_all-AllEntries (λ k row. IsFresh now row)
          (λ id row. is_some (lookup id (r ∷ rs)) && is_waiting row.status)
          (queued_at sha256_hex now) s.rows (λ k row p w out_. omega arith) h)
        h

  -- After a sweep with a queue, whether or not the queue took the messages, no row is left queued or
  -- processing for two minutes: a lost message or a vanished worker strands no row.
  pub sweep-IsFresh :
      (now : ℕ) (s : Outbox)
      → AllEntries
          (λ k row. IsFresh now row)
          (enqueue_pending_delivery_resolution_jobs sha256_hex accepts now true s).1.rows
  unfolding enqueue_pending_delivery_resolution_jobs is_out
  sweep-IsFresh now s = send_rows-IsFresh _ now _ (
      update_all-establishes {P = λ k row. Unit} {Q = λ k row. IsFresh now row} _ _ _
        (λ k row p u out_. ground arith) (λ k row p u out_. ground arith) (AllEntries-any _))

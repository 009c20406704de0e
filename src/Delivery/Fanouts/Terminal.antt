-- ===== src/Delivery/Fanouts/Terminal.antt =====
-- What enqueueing and setting a status do to a fan-out that is at its end.
use yurucommu_core.Base.{
  ℕ, Bool, true, false, Option, some, JsString, JsMap, lookup, ◌≡◌, arith, str_eq_iff,
  lookup-insert, update_where, lookup-update_where,
}
use yurucommu_core.Delivery.Jobs.{QueueMessage}
use yurucommu_core.Delivery.Fanouts.{
  FanoutStatus, FanoutIntent, Fanout, FanoutOutbox, is_terminal, is_active, fresh_row, published_at,
  status_set, compute_delivery_fanout_id, persist_delivery_fanout_job, enqueue_delivery_fanout_job,
  set_delivery_fanout_status,
}

terminal-inactive : (s : FanoutStatus) → is_terminal s ≡ true → is_active s ≡ false
unfolding is_terminal is_active
terminal-inactive s h = ground arith

module _ (sha256_hex : JsString → JsString) where
  persist-keeps :
      (now : ℕ) (intent : FanoutIntent) (rows : JsMap Fanout) (j : JsString) {row : Fanout}
      → lookup j rows ≡ some row
      → lookup j (persist_delivery_fanout_job sha256_hex now intent rows) ≡ some row
  unfolding persist_delivery_fanout_job
  persist-keeps now intent rows j {row} there = ground (
    arith,
    lookup-insert (compute_delivery_fanout_id sha256_hex intent) j (fresh_row now intent) rows,
    str_eq_iff (compute_delivery_fanout_id sha256_hex intent) j,
  )

  -- An update of the active rows under a key leaves a row at its end.
  update-keeps :
      (k j : JsString) (f : Fanout → Fanout) (rows : JsMap Fanout) {row : Fanout}
      → lookup j rows ≡ some row
      → is_terminal row.status ≡ true
      → lookup j (update_where k (λ r. is_active r.status) f rows) ≡ some row
  update-keeps k j f rows {row} there over =
      let closed = terminal-inactive row.status over in
      ground (arith, lookup-update_where k j (λ r. is_active r.status) f rows)

  -- A row at its end keeps all its columns when its intent, or any other one, is enqueued again or is
  -- reset, completed, discarded or failed, as long as what other workers do between the statements
  -- leaves the row alone.
  pub terminal_kept :
      (accepts : QueueMessage → Bool) (others : JsMap Fanout → JsMap Fanout) (now : ℕ)
      (queue_bound : Bool) (intent : FanoutIntent) (status : FanoutStatus)
      (reason : Option JsString) (s : FanoutOutbox) (j : JsString) {row : Fanout}
      → ((rows : JsMap Fanout) → lookup j rows ≡ some row → lookup j (others rows) ≡ some row)
      → lookup j s.rows ≡ some row
      → is_terminal row.status ≡ true
      → (lookup j
            (enqueue_delivery_fanout_job sha256_hex accepts others now queue_bound intent s).1.rows
          ≡ some row)
        × (lookup j (set_delivery_fanout_status sha256_hex now intent status reason s.rows).1
            ≡ some row)
  unfolding enqueue_delivery_fanout_job set_delivery_fanout_status
  terminal_kept accepts others now queue_bound intent status reason s j {row} fair there over = (
    ground (
      arith,
      kept,
      fair rows kept,
      update-keeps id j (published_at now) (others rows) (fair rows kept) over,
    ),
    update-keeps id j (status_set now status reason) s.rows there over,
  )
    where
      id : JsString
      id = compute_delivery_fanout_id sha256_hex intent

      rows : JsMap Fanout
      rows = persist_delivery_fanout_job sha256_hex now intent s.rows

      kept : lookup j rows ≡ some row
      kept = persist-keeps now intent s.rows j there

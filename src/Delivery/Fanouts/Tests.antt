-- ===== src/Delivery/Fanouts/Tests.antt =====
-- A fan-out at its end, enqueued again.
use yurucommu_core.Base.{true, none, some, [], ◌∷◌, JsString, js, lookup, str_eq, ◌≡◌, refl}
use yurucommu_core.Delivery.Fanouts.{
  Fanout, FanoutIntent, followers, to_followers, FanoutOutbox, completed, failed, is_terminal,
  enqueue_delivery_fanout_job, set_delivery_fanout_status,
}
use yurucommu_core.Delivery.Fanouts.Terminal.{terminal_kept}

abbrev intent : FanoutIntent
intent = followers (js "act") (js "alice")

abbrev digest : JsString → JsString
digest s = s

abbrev row_id : JsString
row_id = js "fanout|followers|act|alice|"

abbrev finished : Fanout
finished = record {
  activity_ap_id = js "act";
  kind = to_followers;
  target_ap_id = js "alice";
  announce_activity_ap_id = none;
  status = completed;
  publications = 1;
  last_error = none;
  created_at = 1;
  updated_at = 5;
  completed_at = some 5;
}

abbrev outbox : FanoutOutbox
outbox = record { rows = (row_id, finished) ∷ []; sent = [] }

terminal_kept_example :
    (lookup row_id
        (enqueue_delivery_fanout_job digest (λ m. true) (λ rows. rows) 9 true intent outbox).1.rows
      ≡ some finished)
    × (lookup row_id
          (set_delivery_fanout_status digest 9 intent failed (some (js "late")) outbox.rows).1
        ≡ some finished)
unfolding lookup str_eq is_terminal
terminal_kept_example =
    terminal_kept digest (λ m. true) (λ rows. rows) 9 true intent failed (some (js "late")) outbox
      row_id (λ rows there. there) refl refl

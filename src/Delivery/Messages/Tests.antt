-- ===== src/Delivery/Messages/Tests.antt =====
-- Messages of the queues.
use yurucommu_core.Base.{ℕ, ◌≡◌, ◌&&◌, true, false, none, some, JsString, js, str_eq, refl}
use yurucommu_core.Base.Json.{Json, field, end, obj, nat, str, prop}
use yurucommu_core.Delivery.Jobs.{QueueMessage, DlqMessage, deliver_endpoint}
use yurucommu_core.Delivery.Messages.{
  is_delivery_queue_message_v1, is_delivery_dlq_message_v1, has_fields_of, is_string,
  is_optional_string, is_optional_non_negative_integer, is_version, is_stage,
}
use yurucommu_core.Delivery.Messages.Accepted.{
  queue_message_json, dlq_message_json, messages_told_apart,
}

abbrev wakeup : QueueMessage
wakeup = record {
  auto_dlq_attempt = some 1;
  body = deliver_endpoint (js "j") (some 2);
  scheduled_at = 5;
}

abbrev dead_letter_message : DlqMessage
dead_letter_message = record {
  job_id = js "j";
  activity_id = js "act";
  endpoint = js "https://example.com/inbox";
  attempts = 8;
  last_error = none;
  reconcile_attempt = some 1;
  dead_lettered_at = 9;
}

abbrev iso : ℕ → JsString
iso at_ = js "2026-01-01T00:00:00.000Z"

messages_told_apart_example :
    (is_delivery_queue_message_v1 (queue_message_json iso wakeup) ≡ true)
    × (is_delivery_dlq_message_v1 (dlq_message_json iso dead_letter_message) ≡ true)
    × ((j : Json) → (is_delivery_queue_message_v1 j && is_delivery_dlq_message_v1 j) ≡ false)
messages_told_apart_example = messages_told_apart iso wakeup dead_letter_message refl

-- The test does not look at the announced activity.
announce_not_tested :
    is_delivery_queue_message_v1 (
      obj (
        field (js "version") (nat 1) (
          field (js "type") (str (js "fanout_community")) (
            field (js "activityId") (str (js "act")) (
              field (js "communityApId") (str (js "group")) (
                field
                  (js "announceActivityId")
                  (nat 7)
                  (field (js "scheduledAt") (str (iso 0)) end)))))))
    ≡ true
unfolding is_delivery_queue_message_v1 has_fields_of is_string is_optional_string
    is_optional_non_negative_integer is_version is_stage prop str_eq
announce_not_tested = refl

-- ===== src/Delivery/Messages/Accepted.antt =====
-- The messages that the producers build, and the two tests.
use yurucommu_core.Base.{
  ℕ, ◌^◌, ◌-◌, Bool, true, false, ◌&&◌, Option, none, some, JsString, js, str_eq, str_eq_iff, leb,
  ◌≡◌, refl, inl, inr, arith, Option-cases,
}
use yurucommu_core.Base.Json.{Json, null, nat, str, obj, Fields, field, prop}
use yurucommu_core.Delivery.Jobs.{
  Body, fanout_followers, fanout_community, resolve_actor, deliver_endpoint, reconcile_job,
  notification_push, CommunityStage, local_members, remote_members, remote_followers, QueueMessage,
  DlqMessage,
}
use yurucommu_core.Delivery.Messages.{
  is_string, is_optional_string, is_optional_non_negative_integer, is_safe_non_negative_integer,
  is_version, is_stage, has_fields_of, is_delivery_queue_message_v1, is_nullable_string, is_number,
  is_type, is_delivery_dlq_message_v1,
}

abbrev text : JsString → Option JsString → Fields → Fields
text name none fs = fs
text name (some s) fs = field name (str s) fs

abbrev count : JsString → Option ℕ → Fields → Fields
count name none fs = fs
count name (some n) fs = field name (nat n) fs

abbrev stage_text : CommunityStage → JsString
stage_text local_members = js "local_members"
stage_text remote_members = js "remote_members"
stage_text remote_followers = js "remote_followers"

abbrev stage : Option CommunityStage → Fields → Fields
stage none fs = fs
stage (some s) fs = field (js "stage") (str (stage_text s)) fs

abbrev of_type : JsString → Option ℕ → Fields → Json
of_type t auto fs =
    obj (
      field (js "version") (nat 1)
        (field (js "type") (str t) (count (js "autoDlqAttempt") auto fs)))

abbrev id_field : JsString → JsString → Fields → Fields
id_field name s fs = field name (str s) fs

module _ (iso : ℕ → JsString) where
  abbrev scheduled : ℕ → Fields
  scheduled at_ = field (js "scheduledAt") (str (iso at_)) Fields.end

  -- The value that a message parses to again after it was written as JSON.
  abbrev body_json : Option ℕ → ℕ → Body → Json
  body_json auto at_ (fanout_followers a f c) = of_type (js "fanout_followers") auto (
      id_field (js "activityId") a
        (id_field (js "followeeApId") f (text (js "cursor") c (scheduled at_))))
  body_json auto at_ (fanout_community a g n s c) = of_type (js "fanout_community") auto (
      id_field (js "activityId") a (
        id_field (js "communityApId") g
          (text (js "announceActivityId") n (stage s (text (js "cursor") c (scheduled at_))))))
  body_json auto at_ (resolve_actor a r n) = of_type (js "resolve_actor") auto (
      id_field (js "activityId") a
        (id_field (js "recipientActorApId") r (count (js "attempts") n (scheduled at_))))
  body_json auto at_ (deliver_endpoint j n) =
      of_type (js "deliver_endpoint") auto
        (id_field (js "jobId") j (count (js "reconcileAttempt") n (scheduled at_)))
  body_json auto at_ (reconcile_job j n) =
      of_type (js "reconcile_job") auto
        (id_field (js "jobId") j (field (js "reconcileAttempt") (nat n) (scheduled at_)))
  body_json auto at_ (notification_push j) =
      of_type (js "notification_push") auto (id_field (js "jobId") j (scheduled at_))

  abbrev pub queue_message_json : QueueMessage → Json
  queue_message_json m = body_json m.auto_dlq_attempt m.scheduled_at m.body

  abbrev nullable : Option JsString → Json
  nullable none = null
  nullable (some s) = str s

  abbrev pub dlq_message_json : DlqMessage → Json
  dlq_message_json m = obj (
      field (js "version") (nat 1) (
        field (js "type") (str (js "dlq")) (
          id_field (js "jobId") m.job_id (
            id_field (js "activityId") m.activity_id (
              id_field (js "endpoint") m.endpoint (
                field (js "attempts") (nat m.attempts) (
                  field (js "lastError") (nullable m.last_error) (
                    count (js "reconcileAttempt") m.reconcile_attempt
                      (id_field (js "deadLetteredAt") (iso m.dead_lettered_at) Fields.end)))))))))

  -- The numbers of a message that the tests bound.
  abbrev pub is_in_range : Body → Bool
  is_in_range (reconcile_job j n) = leb n (2 ^ 53 - 1)
  is_in_range _ = true

  body-accepted :
      (auto : Option ℕ) (at_ : ℕ) (b : Body)
      → is_in_range b ≡ true
      → is_delivery_queue_message_v1 (body_json auto at_ b) ≡ true
  unfolding is_delivery_queue_message_v1 has_fields_of is_string is_optional_string
      is_optional_non_negative_integer is_safe_non_negative_integer is_version is_stage prop str_eq
  body-accepted auto at_ (fanout_followers a f c) h = ground arith
  body-accepted auto at_ (fanout_community a g n s c) h = ground arith
  body-accepted auto at_ (resolve_actor a r n) h = ground arith
  body-accepted auto at_ (deliver_endpoint j n) h = ground arith
  body-accepted auto at_ (reconcile_job j n) h = ground arith
  body-accepted auto at_ (notification_push j) h = ground arith

  dlq-accepted : (m : DlqMessage) → is_delivery_dlq_message_v1 (dlq_message_json m) ≡ true
  unfolding is_delivery_dlq_message_v1 is_string is_optional_non_negative_integer is_version
      is_nullable_string is_number is_type prop str_eq
  dlq-accepted m = ground arith

dlq_has_no_fields : (v : Fields) → has_fields_of (js "dlq") v ≡ false
unfolding has_fields_of str_eq
dlq_has_no_fields v = refl

-- A body that the one test accepts is refused by the other.
never_both :
    (j : Json) → is_delivery_dlq_message_v1 j ≡ true → is_delivery_queue_message_v1 j ≡ false
unfolding is_delivery_queue_message_v1 is_delivery_dlq_message_v1 is_type
never_both (obj v) h = elim (Option-cases (prop (js "type") v)) [
  | inl gone ↦ ground arith
  | inr (t, there) ↦ typed t there
]
  where
    typed : (t : Json) → prop (js "type") v ≡ some t → is_delivery_queue_message_v1 (obj v) ≡ false
    typed (str s) there = let e = str_eq_iff s (js "dlq") in ground (arith, dlq_has_no_fields v)
    typed _ there = ground arith
never_both _ h = cc

-- What the producers build is accepted, each kind by its own test, as long as the generation of a
-- revival is a safe integer; and no value at all is accepted by both tests.
pub messages_told_apart :
    (iso : ℕ → JsString) (m : QueueMessage) (d : DlqMessage)
    → is_in_range iso m.body ≡ true
    → (is_delivery_queue_message_v1 (queue_message_json iso m) ≡ true)
      × (is_delivery_dlq_message_v1 (dlq_message_json iso d) ≡ true)
      × ((j : Json) → (is_delivery_queue_message_v1 j && is_delivery_dlq_message_v1 j) ≡ false)
messages_told_apart iso m d h = (
  body-accepted iso m.auto_dlq_attempt m.scheduled_at m.body h,
  dlq-accepted iso d,
  λ j. ground (arith, never_both j),
)

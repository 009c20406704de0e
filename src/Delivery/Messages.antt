-- ===== src/Delivery/Messages.antt =====
-- src/backend/lib/delivery/types.ts: the tests by which the consumers of the two delivery queues
-- tell messages apart from anything else. The argument is the value of the body.
pub mod Accepted
mod Tests
use yurucommu_core.Base.{
  ℕ, ◌^◌, ◌-◌, Bool, true, false, ◌&&◌, ◌||◌, Option, none, some, List, [], ◌∷◌, JsString, js,
  str_eq, if◌then◌else◌, leb, ◌==◌, any,
}
use yurucommu_core.Base.Json.{
  Json, null, bool, nat, negative, fraction, str, arr, obj, Fields, prop,
}

-- `typeof value === "string"`
unfoldable pub is_string : Option Json → Bool
is_string (some (str s)) = true
is_string _ = false

-- `value === undefined || typeof value === "string"`
unfoldable pub is_optional_string : Option Json → Bool
is_optional_string none = true
is_optional_string (some value) = is_string (some value)

unfoldable pub is_optional_non_negative_integer : Option Json → Bool
is_optional_non_negative_integer none = true
is_optional_non_negative_integer (some (nat n)) = true
is_optional_non_negative_integer (some _) = false

-- `Number.isSafeInteger(value) && value >= 0`
unfoldable pub is_safe_non_negative_integer : Option Json → Bool
is_safe_non_negative_integer (some (nat n)) = leb n (2 ^ 53 - 1)
is_safe_non_negative_integer _ = false

unfoldable pub is_version : Option Json → Bool
is_version (some (nat n)) = n == 1
is_version _ = false

unfoldable pub is_stage : Option Json → Bool
is_stage none = true
is_stage (some (str s)) =
    str_eq s (js "local_members")
    || (str_eq s (js "remote_members") || str_eq s (js "remote_followers"))
is_stage (some _) = false

-- The `switch` on the type of a message.
unfoldable pub has_fields_of : JsString → Fields → Bool
has_fields_of t v =
    if str_eq t (js "fanout_followers")
    then is_string (prop (js "activityId") v)
      && (is_string (prop (js "followeeApId") v)
          && (is_optional_string (prop (js "cursor") v) && is_string (prop (js "scheduledAt") v)))
    else if str_eq t (js "fanout_community")
    then is_string (prop (js "activityId") v)
      && (is_string (prop (js "communityApId") v)
          && (is_stage (prop (js "stage") v)
              && (is_optional_string (prop (js "cursor") v)
                  && is_string (prop (js "scheduledAt") v))))
    else if str_eq t (js "resolve_actor")
    then is_string (prop (js "activityId") v)
      && (is_string (prop (js "recipientActorApId") v)
          && (is_optional_non_negative_integer (prop (js "attempts") v)
              && is_string (prop (js "scheduledAt") v)))
    else if str_eq t (js "deliver_endpoint")
    then is_string (prop (js "jobId") v)
      && (is_optional_non_negative_integer (prop (js "reconcileAttempt") v)
          && is_string (prop (js "scheduledAt") v))
    else if str_eq t (js "reconcile_job")
    then is_string (prop (js "jobId") v)
      && (is_safe_non_negative_integer (prop (js "reconcileAttempt") v)
          && is_string (prop (js "scheduledAt") v))
    else if str_eq t (js "notification_push")
    then is_string (prop (js "jobId") v) && is_string (prop (js "scheduledAt") v)
    else false

unfoldable pub is_delivery_queue_message_v1 : Json → Bool
is_delivery_queue_message_v1 (obj v) =
    is_version (prop (js "version") v) && typed (prop (js "type") v)
  where
    typed : Option Json → Bool
    typed (some (str t)) =
        is_optional_non_negative_integer (prop (js "autoDlqAttempt") v) && has_fields_of t v
    typed _ = false
is_delivery_queue_message_v1 _ = false

-- `value === null || typeof value === "string"`
unfoldable pub is_nullable_string : Option Json → Bool
is_nullable_string (some null) = true
is_nullable_string value = is_string value

-- `typeof value === "number"`
unfoldable pub is_number : Option Json → Bool
is_number (some (nat n)) = true
is_number (some (negative n)) = true
is_number (some fraction) = true
is_number _ = false

unfoldable pub is_type : JsString → Option Json → Bool
is_type t (some (str s)) = str_eq s t
is_type t _ = false

unfoldable pub is_delivery_dlq_message_v1 : Json → Bool
is_delivery_dlq_message_v1 (obj v) =
    is_version (prop (js "version") v)
    && (is_type (js "dlq") (prop (js "type") v)
        && (is_string (prop (js "jobId") v)
            && (is_string (prop (js "activityId") v)
                && (is_string (prop (js "endpoint") v)
                    && (is_number (prop (js "attempts") v)
                        && (is_nullable_string (prop (js "lastError") v)
                            && (is_optional_non_negative_integer (prop (js "reconcileAttempt") v)
                                && is_string (prop (js "deadLetteredAt") v))))))))
is_delivery_dlq_message_v1 _ = false

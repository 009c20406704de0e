-- ===== src/Delivery/Fanouts.antt =====
-- src/backend/lib/delivery/fanout-outbox.ts: the durable rows of the fan-outs of an activity. The
-- digest and the producers are arguments; `none` is a thrown error.
pub mod Terminal
pub mod Intents
mod Tests
use yurucommu_core.Base.{
  ℕ, ◌+◌, ◌*◌, Bool, true, false, not, ◌&&◌, ◌||◌, Option, none, some, List, [], ◌∷◌, ◌++◌, map,
  JsString, js, JsMap, lookup, insert, str_eq, if◌then◌else◌, leb, length, take, any, is_some,
  get_or_else, update_where, affects, update_all, delete_where, select_where, order_by, Throws,
}
use yurucommu_core.Ssrf.Urls.{is_empty}
use yurucommu_core.Delivery.Jobs.{Body, fanout_followers, fanout_community, QueueMessage}

pub data FanoutStatus : Type 0 where
  pending published completed failed discarded : FanoutStatus

-- `DeliveryFanoutIntent`: the activity and the target, and for a community the announcing activity.
pub data FanoutIntent : Type 0 where
  followers : JsString → JsString → FanoutIntent
  community : JsString → JsString → Option JsString → FanoutIntent

pub data Kind : Type 0 where
  to_followers to_community : Kind

pub data FanoutState : Type 0 where
  missing active terminal : FanoutState

-- A row of `delivery_fanouts`, without its key.
pub record Fanout : Type 0 where
  pub activity_ap_id : JsString
  pub kind : Kind
  pub target_ap_id : JsString
  pub announce_activity_ap_id : Option JsString
  pub status : FanoutStatus
  pub publications : ℕ
  pub last_error : Option JsString
  pub created_at : ℕ
  pub updated_at : ℕ
  pub completed_at : Option ℕ

pub record FanoutOutbox : Type 0 where
  pub rows : JsMap Fanout
  pub sent : List QueueMessage

abbrev pub outbox_scan_limit : ℕ
outbox_scan_limit = 50

abbrev pub terminal_retention_ms : ℕ
terminal_retention_ms = 30 * 24 * 60 * 60 * 1000

abbrev pub terminal_purge_limit : ℕ
terminal_purge_limit = 50

-- `TERMINAL_STATUSES.includes(status)`
unfoldable pub is_terminal : FanoutStatus → Bool
is_terminal completed = true
is_terminal failed = true
is_terminal discarded = true
is_terminal _ = false

unfoldable pub is_pending : FanoutStatus → Bool
is_pending pending = true
is_pending _ = false

-- `inArray(status, ["pending", "published"])`
unfoldable pub is_active : FanoutStatus → Bool
is_active pending = true
is_active published = true
is_active _ = false

-- `value ? { … } : {}`
abbrev pub nonempty : Option JsString → Option JsString
nonempty none = none
nonempty (some s) = if is_empty s then none else some s

-- `none` stands for the messages of the other types, with which it is not called.
unfoldable pub delivery_fanout_intent_from_message : Body → Option FanoutIntent
delivery_fanout_intent_from_message (fanout_followers activity followee cursor) =
    some (followers activity followee)
delivery_fanout_intent_from_message (fanout_community activity group announce stage cursor) =
    some (community activity group (nonempty announce))
delivery_fanout_intent_from_message _ = none

abbrev pub activity_of : FanoutIntent → JsString
activity_of (followers activity target) = activity
activity_of (community activity target announce) = activity

abbrev pub target_of : FanoutIntent → JsString
target_of (followers activity target) = target
target_of (community activity target announce) = target

abbrev pub announce_of : FanoutIntent → Option JsString
announce_of (followers activity target) = none
announce_of (community activity target announce) = announce

abbrev pub kind_of : FanoutIntent → Kind
kind_of (followers activity target) = to_followers
kind_of (community activity target announce) = to_community

abbrev kind_text : Kind → JsString
kind_text to_followers = js "followers"
kind_text to_community = js "community"

abbrev same_kind : Kind → Kind → Bool
same_kind to_followers to_followers = true
same_kind to_community to_community = true
same_kind _ _ = false

unfoldable pub build_fanout_message : ℕ → Fanout → QueueMessage
build_fanout_message now row = record {
  auto_dlq_attempt = none;
  body = by_kind row.kind;
  scheduled_at = now;
}
  where
    by_kind : Kind → Body
    by_kind to_followers = fanout_followers row.activity_ap_id row.target_ap_id none
    by_kind to_community =
        fanout_community row.activity_ap_id row.target_ap_id (nonempty row.announce_activity_ap_id)
          none none

unfoldable pub fresh_row : ℕ → FanoutIntent → Fanout
fresh_row now intent = record {
  activity_ap_id = activity_of intent;
  kind = kind_of intent;
  target_ap_id = target_of intent;
  announce_activity_ap_id = announce_of intent;
  status = pending;
  publications = 0;
  last_error = none;
  created_at = now;
  updated_at = now;
  completed_at = none;
}

-- The unique index on the four columns of an intent; two NULLs are not equal.
unfoldable pub conflicts : FanoutIntent → Fanout → Bool
conflicts intent row =
    str_eq row.activity_ap_id (activity_of intent)
    && (same_kind row.kind (kind_of intent)
        && (str_eq row.target_ap_id (target_of intent)
            && both row.announce_activity_ap_id (announce_of intent)))
  where
    both : Option JsString → Option JsString → Bool
    both (some a) (some b) = str_eq a b
    both _ _ = false

unfoldable pub published_at : ℕ → Fanout → Fanout
published_at now row = record row {
  status = published;
  publications = row.publications + 1;
  last_error = none;
  updated_at = now;
}

abbrev mark_rows_published : ℕ → JsMap Fanout → JsMap Fanout → JsMap Fanout
mark_rows_published now taken rows =
    update_all (λ id row. is_some (lookup id taken) && is_active row.status) (published_at now) rows

unfoldable pub status_set : ℕ → FanoutStatus → Option JsString → Fanout → Fanout
status_set now status reason row = record row {
  status = status;
  last_error = reason;
  updated_at = now;
  completed_at = if is_pending status then none else some now;
}

unfoldable pub is_purgeable : ℕ → Fanout → Bool
is_purgeable now row = is_terminal row.status && leb (row.updated_at + terminal_retention_ms) now

unfoldable pub purge_terminal_delivery_fanout_jobs : ℕ → JsMap Fanout → JsMap Fanout
purge_terminal_delivery_fanout_jobs now rows =
    let old =
      take terminal_purge_limit
        (order_by (λ row. row.updated_at) (select_where (λ id row. is_purgeable now row) rows)) in
    delete_where (λ id row. is_some (lookup id old) && is_purgeable now row) rows

module _ (sha256_hex : JsString → JsString) where
  unfoldable pub compute_delivery_fanout_id : FanoutIntent → JsString
  compute_delivery_fanout_id intent = sha256_hex (
      js "fanout|"
      ++ (kind_text (kind_of intent)
          ++ (js "|"
              ++ (activity_of intent
                  ++ (js "|"
                      ++ (target_of intent ++ (js "|" ++ get_or_else (announce_of intent) [])))))))

  unfoldable pub persist_delivery_fanout_job : ℕ → FanoutIntent → JsMap Fanout → JsMap Fanout
  persist_delivery_fanout_job now intent rows =
      let id = compute_delivery_fanout_id intent in
      if is_some (lookup id rows) || any (λ e. conflicts intent e.1) rows
      then rows
      else insert id (fresh_row now intent) rows

  -- `others` is what the other workers do between the SELECT and the UPDATE.
  unfoldable pub enqueue_delivery_fanout_job :
      (QueueMessage → Bool)
      → (JsMap Fanout → JsMap Fanout)
      → ℕ
      → Bool
      → FanoutIntent
      → FanoutOutbox
      → Throws FanoutOutbox ℕ
  enqueue_delivery_fanout_job accepts others now queue_bound intent s =
      if queue_bound then selected (lookup id rows) else (some 0, record s { rows = rows })
    where
      id : JsString
      id = compute_delivery_fanout_id intent

      rows : JsMap Fanout
      rows = persist_delivery_fanout_job now intent s.rows

      send : Fanout → Throws FanoutOutbox ℕ
      send row =
          let message = build_fanout_message now row in
          if accepts message
          then (
            some 1,
            record {
              rows = update_where id (λ r. is_active r.status) (published_at now) (others rows);
              sent = s.sent ++ message ∷ [];
            },
          )
          else (none, record s { rows = others rows })

      selected : Option Fanout → Throws FanoutOutbox ℕ
      selected none = (some 0, record s { rows = rows })
      selected (some row) =
          if is_pending row.status then send row else (some 0, record s { rows = rows })

  unfoldable pub get_delivery_fanout_state : FanoutIntent → JsMap Fanout → FanoutState
  get_delivery_fanout_state intent rows = found (lookup (compute_delivery_fanout_id intent) rows)
    where
      found : Option Fanout → FanoutState
      found none = missing
      found (some row) = if is_terminal row.status then terminal else active

  -- `resetDeliveryFanoutJob`, `completeDeliveryFanoutJob` and `failDeliveryFanoutJob`
  unfoldable pub set_delivery_fanout_status :
      ℕ → FanoutIntent → FanoutStatus → Option JsString → JsMap Fanout → Bool × JsMap Fanout
  set_delivery_fanout_status now intent status reason rows =
      let id = compute_delivery_fanout_id intent in
      (
        affects id (λ row. is_active row.status) rows,
        update_where id (λ row. is_active row.status) (status_set now status reason) rows,
      )

unfoldable pub enqueue_pending_delivery_fanout_jobs :
    (List QueueMessage → Bool) → ℕ → Bool → Bool → FanoutOutbox → Throws FanoutOutbox ℕ
enqueue_pending_delivery_fanout_jobs accepts now queue_bound include_published s =
    if queue_bound then publish taken else (some 0, record s { rows = purged })
  where
    purged : JsMap Fanout
    purged = purge_terminal_delivery_fanout_jobs now s.rows

    waits : FanoutStatus → Bool
    waits pending = true
    waits published = include_published
    waits _ = false

    taken : JsMap Fanout
    taken =
        take outbox_scan_limit
          (order_by (λ row. row.created_at) (select_where (λ id row. waits row.status) purged))

    messages : JsMap Fanout → List QueueMessage
    messages rows = map (λ e. build_fanout_message now e.1) rows

    publish : JsMap Fanout → Throws FanoutOutbox ℕ
    publish [] = (some 0, record s { rows = purged })
    publish (r ∷ rs) =
        if accepts (messages (r ∷ rs))
        then (
          some (length (r ∷ rs)),
          record {
            rows = mark_rows_published now (r ∷ rs) purged;
            sent = s.sent ++ messages (r ∷ rs);
          },
        )
        else (none, record s { rows = purged })

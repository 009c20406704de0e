-- ===== src/Delivery/Invalidate.antt =====
-- src/backend/lib/delivery/queue.ts and queue-delivery.ts: an endpoint that answered 404 or 410 is
-- dropped from the cache of actors, and its actors are resolved again.
use yurucommu_core.Base.{
  ℕ, zero, suc, ◌+◌, Bool, true, false, not, ◌&&◌, ◌||◌, Option, none, some, List, [], ◌∷◌, map,
  JsString, JsMap, str_eq, str_gt, if◌then◌else◌, ltb, leb, length, take, drop, filter, any,
  update_all, select_where, order_by_key, Throws, and_then,
}
use yurucommu_core.Ssrf.Urls.{Url, is_safe_remote_url}
use yurucommu_core.Delivery.Jobs.{QueueMessage, Sent}
use yurucommu_core.Delivery.Resolutions.{
  Intent, Outbox, persist_delivery_resolution_jobs, enqueue_delivery_resolution_jobs,
}

-- What the delivery code calls outside: the URL parser, the digest, the producers (`false` is a
-- thrown error) and the reads of the blocklist (`filterBlockedActorApIdsStrict`, `none` for a
-- thrown error).
pub record Env : Type 0 where
  pub parse_url : JsString → Option Url
  pub sha256_hex : JsString → JsString
  pub accepts : Sent → Bool
  pub accepts_batch : List QueueMessage → Bool
  pub blocked_of : List JsString → Option (List JsString)

-- A row of `actor_cache`, as far as it is read here.
pub record CachedActor : Type 0 where
  pub inbox : JsString
  pub shared_inbox : Option JsString
  pub last_fetched_at : ℕ

-- The tables that an invalidation writes.
pub record Invalidation : Type 0 where
  pub actor_cache : JsMap CachedActor
  pub outbox : Outbox

abbrev pub page_size : ℕ
page_size = 200

abbrev pub send_batch_size : ℕ
send_batch_size = 100

abbrev pub max_actors : ℕ
max_actors = 2000

-- `eq(column, endpoint)`, which a NULL does not satisfy
abbrev pub column_is : JsString → Option JsString → Bool
column_is endpoint none = false
column_is endpoint (some value) = str_eq value endpoint

abbrev uses_endpoint : JsString → CachedActor → Bool
uses_endpoint endpoint actor = column_is endpoint actor.shared_inbox || str_eq actor.inbox endpoint

abbrev after_cursor : Option JsString → JsString → Bool
after_cursor none ap_id = true
after_cursor (some cursor) ap_id = str_gt ap_id cursor

unfoldable pub actor_page : JsString → Option JsString → JsMap CachedActor → List JsString
actor_page endpoint cursor cache =
    map (λ e. e.0)
      (take page_size (
        order_by_key (
          select_where (λ ap_id actor. uses_endpoint endpoint actor && after_cursor cursor ap_id)
            cache)))

abbrev last_of : List JsString → Option JsString
last_of [] = none
last_of (x ∷ []) = some x
last_of (x ∷ (y ∷ xs)) = last_of (y ∷ xs)

abbrev intents_for : JsString → List JsString → List Intent
intents_for activity_id ap_ids =
    map (λ a. record { activity_id = activity_id; recipient_actor_ap_id = a }) ap_ids

module _ (env : Env) (now : ℕ) (activity_id : JsString) where
  -- One chunk of a page; the number of the actors that are enqueued.
  unfoldable pub enqueue_slice : List JsString → Outbox → Throws Outbox ℕ
  enqueue_slice chunk s = unblocked (env.blocked_of candidates)
    where
      candidates : List JsString
      candidates = filter (is_safe_remote_url env.parse_url) chunk

      sliced : List JsString → Throws Outbox ℕ
      sliced [] = (some 0, s)
      sliced (a ∷ more) =
          and_then
            (enqueue_delivery_resolution_jobs env.sha256_hex env.accepts_batch now true
              (intents_for activity_id (a ∷ more)) true s)
            λ sent s'. (some (length (a ∷ more)), s')

      unblocked : Option (List JsString) → Throws Outbox ℕ
      unblocked none = (
        none,
        record s {
          rows =
              persist_delivery_resolution_jobs env.sha256_hex now
                (intents_for activity_id candidates) s.rows;
        },
      )
      unblocked (some blocked) =
          sliced (filter (λ a. not (any (λ b. str_eq b a) blocked)) candidates)

  -- The chunks of a page, while there is room; the fuel is the length of the page.
  unfoldable pub enqueue_page : ℕ → List JsString → ℕ → Outbox → Throws Outbox ℕ
  enqueue_page zero page enqueued s = (some enqueued, s)
  enqueue_page (suc fuel) [] enqueued s = (some enqueued, s)
  enqueue_page (suc fuel) (a ∷ page) enqueued s =
      let rest =
        and_then (enqueue_slice (take send_batch_size (a ∷ page)) s)
          λ n s'. enqueue_page fuel (drop send_batch_size (a ∷ page)) (enqueued + n) s' in
      if ltb enqueued max_actors then rest else (some enqueued, s)

  -- The pages, while there is room; the fuel is more than the number of the pages.
  unfoldable pub enqueue_pages :
      ℕ → JsMap CachedActor → JsString → Option JsString → ℕ → Outbox → Throws Outbox ℕ
  enqueue_pages zero cache endpoint cursor enqueued s = (some enqueued, s)
  enqueue_pages (suc fuel) cache endpoint cursor enqueued s =
      let page = actor_page endpoint cursor cache in
      let rest = and_then (enqueue_page (length page) page enqueued s) λ total s'.
        let more = enqueue_pages fuel cache endpoint (last_of page) total s' in
        if ltb (length page) page_size then (some total, s') else more in
      if not (ltb enqueued max_actors) || leb (length page) 0 then (some enqueued, s) else rest

  unfoldable pub enqueue_resolve_for_endpoint_actors :
      JsMap CachedActor → JsString → Outbox → Throws Outbox ℕ
  enqueue_resolve_for_endpoint_actors cache endpoint s =
      enqueue_pages (suc (length cache)) cache endpoint none 0 s

  -- The block for 404 and 410, whose errors are caught.
  unfoldable pub invalidate_endpoint : JsString → Invalidation → Invalidation
  invalidate_endpoint endpoint s =
      settled (enqueue_resolve_for_endpoint_actors s.actor_cache endpoint s.outbox)
    where
      settled : Throws Outbox ℕ → Invalidation
      settled (none, outbox) = record s { outbox = outbox }
      settled (some n, outbox) =
          let unshared =
            update_all (λ ap_id actor. column_is endpoint actor.shared_inbox)
              (λ actor. record actor { shared_inbox = none; last_fetched_at = 0 }) s.actor_cache in
          record {
            actor_cache =
                update_all (λ ap_id actor. str_eq actor.inbox endpoint)
                  (λ actor. record actor { last_fetched_at = 0 }) unshared;
            outbox = outbox;
          }

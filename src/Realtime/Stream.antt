-- ===== src/Realtime/Stream.antt =====
-- src/backend/runtime/realtime-stream.ts and the frames of packages/api/src/types/realtime.ts: the
-- stream over any repository. A socket is a number, and what is sent is a list of frames with it.
pub mod Replay
use yurucommu_core.Base.{
  ℕ, zero, suc, ◌+◌, ◌-◌, ◌*◌, ◌^◌, ◌≤◌, ◌<◌, max, Bool, true, false, not, ◌&&◌, ◌||◌, Option, none,
  some, List, [], ◌∷◌, ◌++◌, map, JsString, js, str_eq, if◌then◌else◌, ltb, leb, length, any,
  get_elem?, ◌≡◌,
}
use yurucommu_core.Base.Json.{
  Json, null, bool, nat, negative, fraction, str, arr, obj, Fields, prop,
}
use yurucommu_core.Ssrf.Text.{to_lower_case}
use yurucommu_core.Ssrf.Urls.{is_empty}
use yurucommu_core.Calls.Frames.{fits_utf8_bytes}

pub data EventType : Type 0 where
  talk_message talk_typing talk_read talk_contacts_changed notification_new unread : EventType

pub record RealtimeEvent : Type 0 where
  pub id : ℕ
  pub type_ : EventType
  pub data_ : Fields

pub data ServerFrame : Type 0 where
  event : RealtimeEvent → ServerFrame
  ping pong resync : ServerFrame
  hello_ok : ℕ → ServerFrame

pub data ClientFrame : Type 0 where
  ping_ pong_ : ClientFrame
  hello : Option ℕ → ClientFrame

abbrev pub event_buffer_size : ℕ
event_buffer_size = 200

abbrev pub max_realtime_control_bytes : ℕ
max_realtime_control_bytes = 1024

abbrev pub max_safe_integer : ℕ
max_safe_integer = 2 ^ 53 - 1

-- The `switch` on the type of an event.
unfoldable pub event_type_of : JsString → Option EventType
event_type_of t =
    if str_eq t (js "talk.message")
    then some talk_message
    else if str_eq t (js "talk.typing")
    then some talk_typing
    else if str_eq t (js "talk.read")
    then some talk_read
    else if str_eq t (js "talk.contacts_changed")
    then some talk_contacts_changed
    else if str_eq t (js "notification.new")
    then some notification_new
    else if str_eq t (js "unread")
    then some unread
    else none

-- The type and the data of an input that `isRealtimeEventInput` accepts.
unfoldable pub realtime_event_input : Json → Option (EventType × Fields)
realtime_event_input (obj fs) = with_data (prop (js "data") fs) (prop (js "type") fs)
  where
    typed : Fields → Option EventType → Option (EventType × Fields)
    typed data_ none = none
    typed data_ (some t) = some (t, data_)

    with_data : Option Json → Option Json → Option (EventType × Fields)
    with_data (some (obj data_)) (some (str t)) = typed data_ (event_type_of t)
    with_data _ _ = none
realtime_event_input _ = none

unfoldable pub parse_realtime_client_frame : Json → Option ClientFrame
parse_realtime_client_frame (obj fs) = by_t (prop (js "t") fs)
  where
    greeting : Option Json → Option ClientFrame
    greeting none = some (hello none)
    greeting (some (nat n)) = if leb n max_safe_integer then some (hello (some n)) else none
    greeting (some _) = none

    by_t : Option Json → Option ClientFrame
    by_t (some (str t)) =
        if str_eq t (js "ping")
        then some ping_
        else if str_eq t (js "pong")
        then some pong_
        else if str_eq t (js "hello")
        then greeting (prop (js "lastEventId") fs)
        else none
    by_t _ = none
parse_realtime_client_frame _ = none

-- `RealtimeRepository`, over a store of any type. A minting without a ticket throws.
pub record Repository (S : Type 0) : Type 0 where
  pub current_seq : S → ℕ
  pub append_event : RealtimeEvent → ℕ → S → S
  pub event_at : ℕ → S → Option RealtimeEvent
  pub mint_ticket : S → Option JsString × S
  pub consume_ticket : JsString → S → Bool × S

abbrev pub Sends : Type 0
Sends = List (ℕ × ServerFrame)

-- A minted ticket; the answer 405 to other methods than POST; or the handler throws.
pub data MintAnswer : Type 0 where
  minted : JsString → MintAnswer
  not_allowed thrown : MintAnswer

-- The answer of an emit: a status, what was sent, and the store.
pub record Emitted (S : Type 0) : Type 0 where
  pub status : ℕ
  pub sends : Sends
  pub store : S

module _ (S : Type 0) (repository : Repository S) where
  -- The `i`-th event that was ever appended can be read as long as it is among the last `retain`.
  abbrev pub Retains : ℕ → S → List RealtimeEvent → Type 0
  Retains retain store log =
      (repository.current_seq store ≡ length log)
      × ((i : ℕ)
          → i < length log
          → length log ≤ i + retain
          → repository.event_at (suc i) store ≡ get_elem? log i)

  -- What the stream needs of its repository: an appended event extends the log.
  abbrev pub IsRepository : Type 0
  IsRepository =
      (retain : ℕ) (store : S) (log : List RealtimeEvent) (e : RealtimeEvent)
      → 1 ≤ retain
      → e.id ≡ suc (length log)
      → Retains retain store log
      → Retains retain (repository.append_event e retain store) (log ++ e ∷ [])

  -- `none` is a body that cannot be read or is no JSON.
  unfoldable pub handle_emit : Bool → Bool → Option Json → List ℕ → S → Emitted S
  handle_emit is_post is_large body sockets store =
      if not is_post then answer 405 else if is_large then answer 413 else parsed body
    where
      answer : ℕ → Emitted S
      answer status = record { status = status; sends = []; store = store }

      accepted : Option (EventType × Fields) → Emitted S
      accepted none = answer 400
      accepted (some (t, data_)) =
          let seq = repository.current_seq store + 1 in
          let e : RealtimeEvent = record { id = seq; type_ = t; data_ = data_ } in
          record {
            status = 200;
            sends = map (λ ws. (ws, event e)) sockets;
            store = repository.append_event e event_buffer_size store;
          }

      parsed : Option Json → Emitted S
      parsed none = answer 400
      parsed (some json) = accepted (realtime_event_input json)

  -- `for (let i = next; i <= seq; i++)`, the count of the rounds being what is left of it.
  unfoldable pub replay : ℕ → ℕ → ℕ → S → Sends
  replay zero ws next store = []
  replay (suc count) ws next store =
      one (repository.event_at next store) ++ replay count ws (suc next) store
    where
      one : Option RealtimeEvent → Sends
      one none = []
      one (some e) = (ws, event e) ∷ []

  -- The answer to a greeting with the last event that the client has seen.
  unfoldable pub greet : ℕ → Option ℕ → S → Sends
  greet ws last_event_id store = missed last_event_id ++ (ws, hello_ok seq) ∷ []
    where
      seq : ℕ
      seq = repository.current_seq store

      missed : Option ℕ → Sends
      missed none = []
      missed (some last) =
          let oldest_buffered = max 1 (seq + 1 - event_buffer_size) in
          if ltb last seq
          then if leb (oldest_buffered - 1) last
            then replay (seq - last) ws (last + 1) store
            else (ws, resync) ∷ []
          else []

  -- `text` is the message if it is a string; nothing of the store changes.
  unfoldable pub socket_message : (JsString → Option Json) → ℕ → Option JsString → S → Sends
  socket_message parse_json ws text store = received text
    where
      answered : Option ClientFrame → Sends
      answered none = []
      answered (some ping_) = (ws, pong) ∷ []
      answered (some pong_) = []
      answered (some (hello last)) = greet ws last store

      parsed : Option Json → Sends
      parsed none = []
      parsed (some json) = answered (parse_realtime_client_frame json)

      received : Option JsString → Sends
      received none = []
      received (some message) =
          if fits_utf8_bytes message max_realtime_control_bytes
          then parsed (parse_json message)
          else []

  -- A minted ticket is the body of the answer 200.
  unfoldable pub handle_mint_ticket : Bool → S → MintAnswer × S
  handle_mint_ticket is_post store =
      if is_post then answered (repository.mint_ticket store) else (not_allowed, store)
    where
      answered : Option JsString × S → MintAnswer × S
      answered (none, store') = (thrown, store')
      answered (some ticket, store') = (minted ticket, store')

  -- An upgrade: the status of a refusal, or the socket is accepted; a ticket is used up. `none` is
  -- an absent header.
  unfoldable pub handle_upgrade :
      Option JsString → Option JsString → Option JsString → S → Option ℕ × S
  handle_upgrade upgrade auth ticket store =
      if is_websocket upgrade then authorized auth else (some 426, store)
    where
      is_websocket : Option JsString → Bool
      is_websocket none = false
      is_websocket (some value) = str_eq (to_lower_case value) (js "websocket")

      consumed : Bool × S → Option ℕ × S
      consumed (taken, store') = (if taken then none else some 401, store')

      with_ticket : Option JsString → Option ℕ × S
      with_ticket none = (some 401, store)
      with_ticket (some t) =
          if is_empty t then (some 401, store) else consumed (repository.consume_ticket t store)

      authorized : Option JsString → Option ℕ × S
      authorized none = (some 401, store)
      authorized (some mode) =
          if str_eq mode (js "ticket")
          then with_ticket ticket
          else if str_eq mode (js "session")
          then (none, store)
          else (some 401, store)

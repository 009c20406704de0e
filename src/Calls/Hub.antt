-- ===== src/Calls/Hub.antt =====
-- src/backend/runtime/call-hub-core.ts: `CallHub`, one actor's calls and the frames it sends.
-- A handler runs to its end before the next one starts, and `now()` stands still meanwhile. What
-- the port does is an argument: the outcome of a relay, the media of a call, the generation.
-- Log lines are left out; every other call on the port is an effect, in order.
pub mod Client
pub mod Peer
pub mod Events
pub mod Invariant
pub mod Progress
pub mod Sweep
pub mod Glare
pub mod Restore
pub mod Strangers
mod Tests
use yurucommu_core.Base.{
  ℕ, ◌+◌, ◌-◌, Bool, true, false, not, ◌&&◌, ◌||◌, Option, none, some, List, [], ◌∷◌, ◌++◌, map,
  JsString, js, JsMap, lookup, insert, remove, modify, str_eq, str_gt, ltb, ◌==◌, if◌then◌else◌,
  is_some, get_or_else, filter, find,
}
use yurucommu_core.Calls.Wire.{
  CallMediaKind, SfuFocus, CallIceCandidate, IceServerConfig, RtcSignalEnvelope, RtcSignalType,
  CallState, CallDirection, incoming, outgoing, idle, ringing, connecting, connected, ended,
  rejected, missed, failed, cancelled, is_terminal_call_state, is_envelope_fresh, ClientToHubFrame,
  HubToClientFrame,
}

pub record CallRecord : Type 0 where
  pub call_id : JsString
  pub peer_ap_id : JsString
  pub peer_signal_endpoint : Option JsString
  pub direction : CallDirection
  pub state : CallState
  pub media : CallMediaKind
  pub sfu_focus : Option SfuFocus
  pub created_at : ℕ
  pub updated_at : ℕ
  pub connected_at : Option ℕ
  pub generation : Option JsString

-- `CallRelayContinuation` of src/backend/runtime/call-relay.ts
pub data CallRelayContinuation : Type 0 where
  none_ rejected_ ended_ cancelled_ glare : CallRelayContinuation

-- What a call on the port does that the hub's own state does not show.
pub data Effect : Type 0 where
  broadcast : HubToClientFrame → Effect
  reply : HubToClientFrame → Effect  -- `conn.send`
  persist : CallRecord → Effect
  send_to_peer : RtcSignalEnvelope → Option JsString → Effect
  defer_to_peer : CallRecord → RtcSignalEnvelope → CallRelayContinuation → Effect
  ring : RtcSignalEnvelope → Effect

pub record Media : Type 0 where
  pub ice_servers : List IceServerConfig
  pub sfu_focus : Option SfuFocus

-- The lane to the peer's server: `deferToPeer` or else `sendToPeer`, and whether it succeeds.
pub data Lane : Type 0 where
  direct : Bool → Lane
  deferred : Bool → Lane

pub record HubPort : Type 0 where
  pub local_actor_ap_id : JsString
  pub has_clients : Bool
  pub lane : Lane
  pub new_call_generation : Option JsString
  pub provision_media : CallMediaKind → Media
  pub now : ℕ

pub record CallHub : Type 0 where
  pub calls : JsMap CallRecord
  pub effects : List Effect

abbrev pub ringing_timeout_ms : ℕ
ringing_timeout_ms = 45000

abbrev pub connecting_timeout_ms : ℕ
connecting_timeout_ms = 40000

abbrev pub default_ttl_ms : ℕ
default_ttl_ms = 30000

abbrev pub emit : Effect → CallHub → CallHub
emit e h = record h { effects = h.effects ++ e ∷ [] }

-- A call on the port that is made only under a test.
abbrev pub emit_if : Bool → Effect → CallHub → CallHub
emit_if b e h = if b then emit e h else h

abbrev pub values : JsMap CallRecord → List CallRecord
values [] = []
values ((k, c) ∷ m) = c ∷ values m

unfoldable pub active_calls : CallHub → List CallRecord
active_calls h = filter (λ c. not (is_terminal_call_state c.state)) (values h.calls)

unfoldable pub hydrate : List CallRecord → CallHub → CallHub
hydrate [] h = h
hydrate (rec ∷ records) h = hydrate records (
    if is_terminal_call_state rec.state
    then h
    else record h { calls = insert rec.call_id rec h.calls })

-- `!n`, of a number or `undefined`
abbrev pub falsy : Option ℕ → Bool
falsy none = true
falsy (some n) = n == 0

-- `!s`, of a string or `undefined`
abbrev pub empty_text : Option JsString → Bool
empty_text none = true
empty_text (some []) = true
empty_text (some (_ ∷ _)) = false

abbrev pub is_ringing : CallState → Bool
is_ringing ringing = true
is_ringing _ = false

abbrev pub is_connecting : CallState → Bool
is_connecting connecting = true
is_connecting _ = false

abbrev pub is_connected : CallState → Bool
is_connected connected = true
is_connected _ = false

abbrev pub is_outgoing : CallDirection → Bool
is_outgoing outgoing = true
is_outgoing incoming = false

-- The record as `transition` leaves it.
unfoldable pub moved : ℕ → CallState → CallRecord → CallRecord
moved now state call = record call {
  state = state;
  updated_at = now;
  connected_at =
      if is_connected state && falsy call.connected_at then some now else call.connected_at;
}

-- The object is shared with the map, which keeps it unless the state is terminal.
unfoldable pub transition : HubPort → CallRecord → CallState → CallHub → CallHub
transition port call state h =
    let call' = moved port.now state call in
    let told =
      emit (broadcast (HubToClientFrame.call_state call.call_id state)) (emit (persist call') h) in
    record told {
      calls =
          if is_terminal_call_state state
          then remove call.call_id h.calls
          else modify call.call_id (λ _. call') h.calls;
    }

-- `makeEnvelope` with no extra field
abbrev pub make_envelope : HubPort → CallRecord → RtcSignalType → RtcSignalEnvelope
make_envelope port call type_ = record {
  call_id = call.call_id;
  from = port.local_actor_ap_id;
  to = call.peer_ap_id;
  signal_type = type_;
  media = none;
  sdp = none;
  candidates = none;
  sfu_focus = none;
  reason = none;
  ts = port.now;
  ttl_ms = default_ttl_ms;
}

abbrev pub unreachable : Effect
unreachable = broadcast (
    HubToClientFrame.error (js "peer_unreachable")
      (some (js "Could not reach the other party's server.")))

-- `relay`: the hub afterwards, and whether the peer has the frame.
unfoldable pub relay_on :
    Lane
    → HubPort
    → CallRecord
    → RtcSignalEnvelope
    → CallRelayContinuation
    → CallHub
    → CallHub × Bool
relay_on (deferred true) port call envelope continuation h =
    (emit (defer_to_peer call envelope continuation) h, false)
relay_on (deferred false) port call envelope continuation h = (
  transition port call failed
      (emit unreachable (emit (defer_to_peer call envelope continuation) h)),
  false,
)
relay_on (direct true) port call envelope continuation h =
    (emit (send_to_peer envelope call.peer_signal_endpoint) h, true)
relay_on (direct false) port call envelope continuation h = (
  transition port call failed
      (emit unreachable (emit (send_to_peer envelope call.peer_signal_endpoint) h)),
  false,
)

abbrev pub relay :
    HubPort → CallRecord → RtcSignalEnvelope → CallRelayContinuation → CallHub → CallHub × Bool
relay port = relay_on port.lane port

abbrev pub continuation_state : CallRelayContinuation → Option CallState
continuation_state none_ = none
continuation_state rejected_ = some rejected
continuation_state ended_ = some ended
continuation_state cancelled_ = some cancelled
continuation_state glare = some cancelled

-- The call of an id, handed on; nothing happens for an unknown id.
abbrev pub with_call : JsString → (CallRecord → CallHub → CallHub) → CallHub → CallHub
with_call id f h = elim (lookup id h.calls) [ none ↦ h | some call ↦ f call h ]

-- `call.generation === generation`
abbrev pub same_generation : Option JsString → JsString → Bool
same_generation none g = false
same_generation (some g') g = str_eq g' g

abbrev settle : HubPort → CallRelayContinuation → Bool → CallRecord → CallHub → CallHub
settle port continuation false call h = transition port call failed (emit unreachable h)
settle port continuation true call h = elim (continuation_state continuation) [
  | none ↦ h
  | some state ↦ transition port call state h
]

abbrev pub settle_if :
    HubPort → JsString → CallRelayContinuation → Bool → CallRecord → CallHub → CallHub
settle_if port generation continuation accepted call h =
    if same_generation call.generation generation
    then settle port continuation accepted call h
    else h

unfoldable pub complete_deferred_relay :
    HubPort → JsString → JsString → CallRelayContinuation → Bool → CallHub → CallHub
complete_deferred_relay port call_id generation continuation accepted =
    with_call call_id (settle_if port generation continuation accepted)

-- ===== src/Calls/Hub/Invariant.antt =====
-- What holds of a hub between two handlers, and the steps that the handlers are built of.
mod Client
mod Peer
pub mod Runs
use yurucommu_core.Base.{
  ℕ, ◌+◌, ◌-◌, ◌≤◌, ◌<◌, ◌≡◌, ◌≢◌, refl, Bool, true, false, not, ◌&&◌, ◌||◌, Option, none, some,
  List, [], ◌∷◌, ◌++◌, JsString, js, lookup, insert, if◌then◌else◌, is_some, get_or_else, str_eq,
  str_gt, ltb, find, arith, HasUniqueKeys, AllEntries, AllEntries-lookup, insert-HasUniqueKeys,
  remove-HasUniqueKeys, modify-HasUniqueKeys, insert-AllEntries, remove-AllEntries,
  modify-AllEntries, Bool-cases, Option-cases, inl, inr, JsMap,
}
use yurucommu_core.Calls.Wire.{
  CallMediaKind, CallIceCandidate, RtcSignalType, RtcSignalEnvelope, CallState, CallDirection,
  incoming, outgoing, idle, ringing, connecting, connected, ended, rejected, missed, failed,
  cancelled, HubToClientFrame, ClientToHubFrame, is_envelope_fresh, is_terminal_call_state, hello,
  invite, accept, reject, hangup, resume, ping,
}
use yurucommu_core.Calls.Hub.{
  CallRecord, CallHub, HubPort, Effect, CallRelayContinuation, Lane, direct, deferred, transition,
  moved, relay, relay_on, hydrate, complete_deferred_relay, is_connected, is_ringing, with_call,
  falsy, empty_text, same_generation, is_outgoing, none_, rejected_, ended_, cancelled_, glare,
  emit, emit_if, values, settle, settle_if,
}
use yurucommu_core.Calls.Hub.Client.{
  register, new_outgoing_call, relay_offer, relay_answer, relay_candidates, relay_accept,
  relay_reject, relay_hangup, answered, transition_if, announce, handle_client_frame,
  on_client_invite, on_client_offer, on_client_answer, on_client_candidates, on_client_accept,
  on_client_reject, on_client_hangup, on_client_resume,
}
use yurucommu_core.Calls.Hub.Peer.{
  announce_offer, accept_offer, yield_to_offer, on_peer_offer, on_peer_answer, on_peer_candidate,
  on_peer_accept, on_peer_reject, on_peer_hangup, handle_inbound_signal, dispatch_signal,
  no_candidates, take_answer, take_candidates, take_accept, take_reject, take_hangup, connect,
  new_incoming_call, is_polite, outgoing_to_peer, mark_connected, expire, sweep, tick,
}

-- A call in the map stands under its own id, is not over, and knows when it was connected.
abbrev pub IsCall : JsString → CallRecord → Type 0
IsCall k c =
    (c.call_id ≡ k)
    × (is_terminal_call_state c.state ≡ false)
    × (c.state ≢ idle)
    × (is_connected c.state ≡ true → is_some c.connected_at ≡ true)

pub record IsHub (h : CallHub) : Type 0 where
  pub unique : HasUniqueKeys h.calls
  pub sound : AllEntries IsCall h.calls

-- Sending a frame is no change of the calls.
emitted : {h : CallHub} (e : Effect) → IsHub h → IsHub (emit e h)
emitted e v = record { unique = v.unique; sound = v.sound }

emitted_if : {h : CallHub} (b : Bool) (e : Effect) → IsHub h → IsHub (emit_if b e h)
emitted_if true e v = emitted e v
emitted_if false e v = v

transition-IsHub :
    {h : CallHub} (port : HubPort) (call : CallRecord) (state : CallState)
    → state ≢ idle
    → IsHub h
    → IsHub (transition port call state h)
unfolding transition moved
transition-IsHub {h} port call state n v = elim (Bool-cases (is_terminal_call_state state)) [
  | inl over ↦ rw over (record {
    unique = remove-HasUniqueKeys call.call_id h.calls v.unique;
    sound = remove-AllEntries IsCall call.call_id h.calls v.sound;
  })
  | inr live ↦ rw live (record {
    unique = modify-HasUniqueKeys call.call_id _ h.calls v.unique;
    sound =
        modify-AllEntries IsCall call.call_id _ h.calls (λ c p. (refl, live, n, ground arith))
          v.sound;
  })
]

relay-IsHub :
    {h : CallHub} (lane : Lane) (port : HubPort) (call : CallRecord) (envelope : RtcSignalEnvelope)
    (continuation : CallRelayContinuation)
    → IsHub h
    → IsHub (relay_on lane port call envelope continuation h).0
unfolding relay_on
relay-IsHub (deferred true) port call envelope continuation v = emitted _ v
relay-IsHub (deferred false) port call envelope continuation v =
    transition-IsHub port call failed (λ e. cc) (emitted _ (emitted _ v))
relay-IsHub (direct true) port call envelope continuation v = emitted _ v
relay-IsHub (direct false) port call envelope continuation v =
    transition-IsHub port call failed (λ e. cc) (emitted _ (emitted _ v))

with_call-IsHub :
    {h : CallHub} (id : JsString) (f : CallRecord → CallHub → CallHub)
    → ((call : CallRecord) → IsHub (f call h))
    → IsHub h
    → IsHub (with_call id f h)
with_call-IsHub {h} id f step v = elim (Option-cases (lookup id h.calls)) [
  | inl missing ↦ rw (missing, with_call) v
  | inr (call, found) ↦ rw (found, with_call) (step call)
]

if-IsHub : {h k : CallHub} (b : Bool) → IsHub h → IsHub k → IsHub (if b then h else k)
if-IsHub true v w = v
if-IsHub false v w = w

register-IsHub :
    {h : CallHub} (call : CallRecord) → call.state ≡ ringing → IsHub h → IsHub (register call h)
unfolding register
register-IsHub {h} call r v = record {
  unique = insert-HasUniqueKeys call.call_id call h.calls v.unique;
  sound =
      insert-AllEntries IsCall call.call_id call h.calls
        (refl, rw r refl, ground arith, ground arith) v.sound;
}

answered-IsHub :
    {h : CallHub} (port : HubPort) (call : CallRecord) → IsHub h → IsHub (answered port call h)
answered-IsHub port call v =
    if-IsHub (is_ringing call.state) (transition-IsHub port call connecting (λ e. cc) v) v

transition_if-IsHub :
    (port : HubPort) (call : CallRecord) (state : CallState) (r : CallHub × Bool)
    → state ≢ idle
    → IsHub r.0
    → IsHub (transition_if port call state r)
unfolding transition_if
transition_if-IsHub port call state (h, true) n v = transition-IsHub port call state n v
transition_if-IsHub port call state (h, false) n v = v

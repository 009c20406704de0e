-- ===== src/Calls/Hub/Invariant/Peer.antt =====
-- The handlers of the peer's signals, of relay results and of the clock keep the hub well formed.
use yurucommu_core.Base.{
  ◌≢◌, refl, Bool, true, false, not, List, [], ◌∷◌, JsString, lookup, if◌then◌else◌, Option-cases,
  inl, inr,
}
use yurucommu_core.Calls.Wire.{
  RtcSignalType, RtcSignalEnvelope, idle, connected, ended, rejected, missed, failed, cancelled,
  is_envelope_fresh,
}
use yurucommu_core.Calls.Hub.{
  CallRecord, CallHub, HubPort, CallRelayContinuation, complete_deferred_relay, is_connected, falsy,
  empty_text, same_generation, is_outgoing, none_, rejected_, ended_, cancelled_, glare, values,
  settle, settle_if,
}
use yurucommu_core.Calls.Hub.Peer.{
  announce_offer, accept_offer, yield_to_offer, on_peer_offer, on_peer_answer, on_peer_candidate,
  on_peer_accept, on_peer_reject, on_peer_hangup, handle_inbound_signal, dispatch_signal,
  no_candidates, take_answer, take_candidates, take_accept, take_reject, take_hangup, connect,
  new_incoming_call, is_polite, outgoing_to_peer, mark_connected, expire, sweep, tick,
}
use yurucommu_core.Calls.Hub.Invariant.{
  IsHub, emitted, emitted_if, transition-IsHub, relay-IsHub, with_call-IsHub, if-IsHub,
  register-IsHub, answered-IsHub,
}

announce_offer-IsHub :
    {h : CallHub} (port : HubPort) (envelope : RtcSignalEnvelope) (call : CallRecord)
    → IsHub h
    → IsHub (announce_offer port envelope call h)
unfolding announce_offer
announce_offer-IsHub port envelope call v =
    emitted_if (not (empty_text envelope.sdp)) _
      (emitted_if port.has_clients _ (emitted_if port.has_clients _ (emitted _ v)))

pub accept_offer-IsHub :
    {h : CallHub} (port : HubPort) (envelope : RtcSignalEnvelope)
    → IsHub h
    → IsHub (accept_offer port envelope h)
unfolding accept_offer
accept_offer-IsHub port envelope v =
    announce_offer-IsHub port envelope _ (register-IsHub (new_incoming_call port envelope) refl v)

pub yield_to_offer-IsHub :
    (port : HubPort) (envelope : RtcSignalEnvelope) (ours : CallRecord) (r : CallHub × Bool)
    → IsHub r.0
    → IsHub (yield_to_offer port envelope ours r)
unfolding yield_to_offer
yield_to_offer-IsHub port envelope ours (h, false) v = v
yield_to_offer-IsHub port envelope ours (h, true) v =
    accept_offer-IsHub port envelope (transition-IsHub port ours cancelled (λ e. cc) v)

on_peer_offer-IsHub :
    {h : CallHub} (port : HubPort) (envelope : RtcSignalEnvelope)
    → IsHub h
    → IsHub (on_peer_offer port envelope h)
unfolding on_peer_offer
on_peer_offer-IsHub {h} port envelope v = elim (Option-cases (lookup envelope.call_id h.calls)) [
  | inr (call, found) ↦ rw found (announce_offer-IsHub port envelope call v)
  | inl missing ↦ elim (Option-cases (outgoing_to_peer envelope.from h)) [
    | inl quiet ↦ rw (missing, quiet) (accept_offer-IsHub port envelope v)
    | inr (ours, dialled) ↦
        rw (missing, dialled)
          (if-IsHub (is_polite port envelope.from)
            (yield_to_offer-IsHub port envelope ours _ (relay-IsHub port.lane port ours _ _ v)) v)
  ]
]

ended_or_cancelled : (b : Bool) → (if b then cancelled else ended) ≢ idle
ended_or_cancelled true e = cc
ended_or_cancelled false e = cc

module _ {h : CallHub} (port : HubPort) (envelope : RtcSignalEnvelope) (call : CallRecord)
    (v : IsHub h) where
  take_answer-IsHub : IsHub (take_answer port envelope call h)
  unfolding take_answer
  take_answer-IsHub = if-IsHub (empty_text envelope.sdp) v (emitted _ (answered-IsHub port call v))

  take_candidates-IsHub : IsHub (take_candidates envelope call h)
  unfolding take_candidates
  take_candidates-IsHub = if-IsHub (no_candidates envelope.candidates) v (emitted _ v)

  take_accept-IsHub : IsHub (take_accept port call h)
  unfolding take_accept
  take_accept-IsHub = emitted _ (answered-IsHub port call v)

  take_reject-IsHub : IsHub (take_reject port envelope call h)
  unfolding take_reject
  take_reject-IsHub = transition-IsHub port call rejected (λ e. cc) (emitted _ v)

  take_hangup-IsHub : IsHub (take_hangup port envelope call h)
  unfolding take_hangup
  take_hangup-IsHub =
      transition-IsHub port call _ (ended_or_cancelled (falsy call.connected_at)) (emitted _ v)

module _ {h : CallHub} (port : HubPort) (envelope : RtcSignalEnvelope) (v : IsHub h) where
  dispatch_signal-IsHub : (t : RtcSignalType) → IsHub (dispatch_signal port envelope t h)
  unfolding on_peer_answer on_peer_candidate on_peer_accept on_peer_reject on_peer_hangup
  dispatch_signal-IsHub RtcSignalType.offer = on_peer_offer-IsHub port envelope v
  dispatch_signal-IsHub RtcSignalType.answer =
      with_call-IsHub envelope.call_id (take_answer port envelope)
        (λ call. take_answer-IsHub port envelope call v) v
  dispatch_signal-IsHub RtcSignalType.candidate =
      with_call-IsHub envelope.call_id (take_candidates envelope)
        (λ call. take_candidates-IsHub port envelope call v) v
  dispatch_signal-IsHub RtcSignalType.accept =
      with_call-IsHub envelope.call_id (take_accept port)
        (λ call. take_accept-IsHub port envelope call v) v
  dispatch_signal-IsHub RtcSignalType.reject =
      with_call-IsHub envelope.call_id (take_reject port envelope)
        (λ call. take_reject-IsHub port envelope call v) v
  dispatch_signal-IsHub RtcSignalType.hangup =
      with_call-IsHub envelope.call_id (take_hangup port envelope)
        (λ call. take_hangup-IsHub port envelope call v) v
  dispatch_signal-IsHub RtcSignalType.cancel =
      with_call-IsHub envelope.call_id (take_hangup port envelope)
        (λ call. take_hangup-IsHub port envelope call v) v

pub handle_inbound_signal-IsHub :
    {h : CallHub} (port : HubPort) (envelope : RtcSignalEnvelope)
    → IsHub h
    → IsHub (handle_inbound_signal port envelope h)
unfolding handle_inbound_signal
handle_inbound_signal-IsHub port envelope v =
    if-IsHub (is_envelope_fresh envelope port.now)
      (dispatch_signal-IsHub port envelope v envelope.signal_type) v

pub mark_connected-IsHub :
    {h : CallHub} (port : HubPort) (call_id : JsString)
    → IsHub h
    → IsHub (mark_connected port call_id h)
unfolding mark_connected connect
mark_connected-IsHub port call_id v =
    with_call-IsHub call_id (connect port)
      (λ call.
        if-IsHub (is_connected call.state) v (transition-IsHub port call connected (λ e. cc) v))
      v

pub settle-IsHub :
    {h : CallHub} (port : HubPort) (c : CallRelayContinuation) (accepted : Bool) (call : CallRecord)
    → IsHub h
    → IsHub (settle port c accepted call h)
settle-IsHub port c false call v = transition-IsHub port call failed (λ e. cc) (emitted _ v)
settle-IsHub port none_ true call v = v
settle-IsHub port rejected_ true call v = transition-IsHub port call rejected (λ e. cc) v
settle-IsHub port ended_ true call v = transition-IsHub port call ended (λ e. cc) v
settle-IsHub port cancelled_ true call v = transition-IsHub port call cancelled (λ e. cc) v
settle-IsHub port glare true call v = transition-IsHub port call cancelled (λ e. cc) v

pub complete_deferred_relay-IsHub :
    {h : CallHub} (port : HubPort) (call_id generation : JsString) (c : CallRelayContinuation)
    (accepted : Bool)
    → IsHub h
    → IsHub (complete_deferred_relay port call_id generation c accepted h)
unfolding complete_deferred_relay
complete_deferred_relay-IsHub port call_id generation c accepted v =
    with_call-IsHub call_id (settle_if port generation c accepted)
      (λ call.
        if-IsHub (same_generation call.generation generation) (settle-IsHub port c accepted call v)
          v)
      v

missed_or_cancelled : (b : Bool) → (if b then cancelled else missed) ≢ idle
missed_or_cancelled true e = cc
missed_or_cancelled false e = cc

expire-IsHub :
    {h : CallHub} (port : HubPort) (call : CallRecord) → IsHub h → IsHub (expire port call h)
unfolding expire
expire-IsHub port call v =
    if-IsHub _ (transition-IsHub port call _ (missed_or_cancelled (is_outgoing call.direction)) v)
      (if-IsHub _ (transition-IsHub port call failed (λ e. cc) v) v)

sweep-IsHub :
    (port : HubPort) (calls : List CallRecord) (h : CallHub) → IsHub h → IsHub (sweep port calls h)
unfolding sweep
sweep-IsHub port [] h v = v
sweep-IsHub port (call ∷ calls) h v =
    sweep-IsHub port calls (expire port call h) (expire-IsHub port call v)

pub tick-IsHub : {h : CallHub} (port : HubPort) → IsHub h → IsHub (tick port h)
unfolding tick
tick-IsHub {h} port v = sweep-IsHub port (values h.calls) h v

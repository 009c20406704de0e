-- ===== src/Calls/Hub/Peer.antt =====
-- The handlers of the peer's signals and of the clock (`handleInboundSignal`, `markConnected` and
-- `tick` of src/backend/runtime/call-hub-core.ts).
use yurucommu_core.Base.{
  ◌+◌, Bool, true, false, not, ◌&&◌, Option, none, some, List, [], ◌∷◌, JsString, js, lookup,
  if◌then◌else◌, get_or_else, str_eq, str_gt, ltb, find,
}
use yurucommu_core.Calls.Wire.{
  CallIceCandidate, RtcSignalType, RtcSignalEnvelope, incoming, ringing, connected, ended, rejected,
  missed, failed, cancelled, HubToClientFrame, is_envelope_fresh,
}
use yurucommu_core.Calls.Hub.{
  CallRecord, CallHub, HubPort, broadcast, ring, emit, emit_if, values, transition, make_envelope,
  relay, with_call, is_ringing, is_connecting, is_connected, is_outgoing, falsy, empty_text, glare,
  ringing_timeout_ms, connecting_timeout_ms,
}
use yurucommu_core.Calls.Hub.Client.{register, answered}

abbrev is_outgoing_to : JsString → CallRecord → Bool
is_outgoing_to from c = is_outgoing c.direction && str_eq c.peer_ap_id from && is_ringing c.state

-- The call that we are already ringing this peer with, if any.
unfoldable pub outgoing_to_peer : JsString → CallHub → Option CallRecord
outgoing_to_peer from h = find (is_outgoing_to from) (values h.calls)

unfoldable pub new_incoming_call : HubPort → RtcSignalEnvelope → CallRecord
new_incoming_call port envelope = record {
  call_id = envelope.call_id;
  peer_ap_id = envelope.from;
  peer_signal_endpoint = none;
  direction = incoming;
  state = ringing;
  media = get_or_else envelope.media (record { audio = true; video = false });
  sfu_focus = get_or_else envelope.sfu_focus none;
  created_at = port.now;
  updated_at = port.now;
  connected_at = none;
  generation = port.new_call_generation;
}

-- The end of `onPeerOffer`: ring the browser, and hand it the offer.
unfoldable pub announce_offer : HubPort → RtcSignalEnvelope → CallRecord → CallHub → CallHub
announce_offer port envelope call h =
    let provided = port.provision_media call.media in
    let rung = emit (ring envelope) h in
    let shown =
      emit_if port.has_clients
        (broadcast (HubToClientFrame.ringing call.call_id call.peer_ap_id call.media))
        (emit_if port.has_clients
          (broadcast
            (HubToClientFrame.ice_servers call.call_id provided.ice_servers provided.sfu_focus))
          rung) in
    emit_if (not (empty_text envelope.sdp))
      (broadcast
        (HubToClientFrame.offer call.call_id (get_or_else envelope.sdp []) (some call.media)))
      shown

unfoldable pub accept_offer : HubPort → RtcSignalEnvelope → CallHub → CallHub
unfolding register new_incoming_call
accept_offer port envelope h =
    let call = new_incoming_call port envelope in
    announce_offer port envelope call (register call h)

-- The polite side gives its own call up, and takes theirs only once the peer knows.
unfoldable pub yield_to_offer : HubPort → RtcSignalEnvelope → CallRecord → CallHub × Bool → CallHub
unfolding accept_offer
yield_to_offer port envelope ours (h, false) = h
yield_to_offer port envelope ours (h, true) =
    accept_offer port envelope (transition port ours cancelled h)

-- `this.localActorApId > envelope.from`
abbrev pub is_polite : HubPort → JsString → Bool
is_polite port from = str_gt port.local_actor_ap_id from

unfoldable pub on_peer_offer : HubPort → RtcSignalEnvelope → CallHub → CallHub
unfolding yield_to_offer
on_peer_offer port envelope h = known (lookup envelope.call_id h.calls)
  where
    dialled : Option CallRecord → CallHub
    dialled none = accept_offer port envelope h
    dialled (some ours) =
        if is_polite port envelope.from
        then yield_to_offer port envelope ours (
            relay port ours
              (record (make_envelope port ours RtcSignalType.cancel) { reason = some (js "glare") })
              glare h)
        else h

    known : Option CallRecord → CallHub
    known (some call) = announce_offer port envelope call h
    known none = dialled (outgoing_to_peer envelope.from h)

unfoldable pub take_answer : HubPort → RtcSignalEnvelope → CallRecord → CallHub → CallHub
take_answer port envelope call h =
    if empty_text envelope.sdp
    then h
    else emit (broadcast (HubToClientFrame.answer call.call_id (get_or_else envelope.sdp [])))
        (answered port call h)

unfoldable pub on_peer_answer : HubPort → RtcSignalEnvelope → CallHub → CallHub
on_peer_answer port envelope = with_call envelope.call_id (take_answer port envelope)

-- `!envelope.candidates?.length`
abbrev pub no_candidates : Option (List CallIceCandidate) → Bool
no_candidates none = true
no_candidates (some []) = true
no_candidates (some (_ ∷ _)) = false

unfoldable pub take_candidates : RtcSignalEnvelope → CallRecord → CallHub → CallHub
take_candidates envelope call h =
    if no_candidates envelope.candidates
    then h
    else emit
        (broadcast (HubToClientFrame.candidates call.call_id (get_or_else envelope.candidates [])))
        h

unfoldable pub on_peer_candidate : RtcSignalEnvelope → CallHub → CallHub
on_peer_candidate envelope = with_call envelope.call_id (take_candidates envelope)

unfoldable pub take_accept : HubPort → CallRecord → CallHub → CallHub
take_accept port call h =
    emit (broadcast (HubToClientFrame.peer_accepted call.call_id)) (answered port call h)

unfoldable pub on_peer_accept : HubPort → RtcSignalEnvelope → CallHub → CallHub
on_peer_accept port envelope = with_call envelope.call_id (take_accept port)

unfoldable pub take_reject : HubPort → RtcSignalEnvelope → CallRecord → CallHub → CallHub
take_reject port envelope call h =
    transition port call rejected
      (emit (broadcast (HubToClientFrame.peer_rejected call.call_id envelope.reason)) h)

unfoldable pub on_peer_reject : HubPort → RtcSignalEnvelope → CallHub → CallHub
on_peer_reject port envelope = with_call envelope.call_id (take_reject port envelope)

unfoldable pub take_hangup : HubPort → RtcSignalEnvelope → CallRecord → CallHub → CallHub
take_hangup port envelope call h =
    transition port call (if falsy call.connected_at then cancelled else ended)
      (emit (broadcast (HubToClientFrame.peer_hangup call.call_id envelope.reason)) h)

unfoldable pub on_peer_hangup : HubPort → RtcSignalEnvelope → CallHub → CallHub
on_peer_hangup port envelope = with_call envelope.call_id (take_hangup port envelope)

-- the `switch` on the envelope's type
abbrev pub dispatch_signal : HubPort → RtcSignalEnvelope → RtcSignalType → CallHub → CallHub
dispatch_signal port envelope RtcSignalType.offer h = on_peer_offer port envelope h
dispatch_signal port envelope RtcSignalType.answer h = on_peer_answer port envelope h
dispatch_signal port envelope RtcSignalType.candidate h = on_peer_candidate envelope h
dispatch_signal port envelope RtcSignalType.accept h = on_peer_accept port envelope h
dispatch_signal port envelope RtcSignalType.reject h = on_peer_reject port envelope h
dispatch_signal port envelope RtcSignalType.hangup h = on_peer_hangup port envelope h
dispatch_signal port envelope RtcSignalType.cancel h = on_peer_hangup port envelope h

unfoldable pub handle_inbound_signal : HubPort → RtcSignalEnvelope → CallHub → CallHub
handle_inbound_signal port envelope h =
    if is_envelope_fresh envelope port.now
    then dispatch_signal port envelope envelope.signal_type h
    else h

unfoldable pub connect : HubPort → CallRecord → CallHub → CallHub
connect port call h = if is_connected call.state then h else transition port call connected h

unfoldable pub mark_connected : HubPort → JsString → CallHub → CallHub
mark_connected port call_id = with_call call_id (connect port)

-- `age > limit`, where `age` is `now - call.updatedAt`, with no subtraction
abbrev pub rings_too_long : HubPort → CallRecord → Bool
rings_too_long port call =
    is_ringing call.state && ltb (call.updated_at + ringing_timeout_ms) port.now

abbrev pub connects_too_long : HubPort → CallRecord → Bool
connects_too_long port call =
    is_connecting call.state && ltb (call.updated_at + connecting_timeout_ms) port.now

-- The sweep of one call.
unfoldable pub expire : HubPort → CallRecord → CallHub → CallHub
expire port call h =
    if rings_too_long port call
    then transition port call (if is_outgoing call.direction then cancelled else missed) h
    else if connects_too_long port call
    then transition port call failed h
    else h

unfoldable pub sweep : HubPort → List CallRecord → CallHub → CallHub
sweep port [] h = h
sweep port (call ∷ calls) h = sweep port calls (expire port call h)

unfoldable pub tick : HubPort → CallHub → CallHub
tick port h = sweep port (values h.calls) h

-- ===== src/Calls/Hub/Client.antt =====
-- The handlers of browser frames (`handleClientFrame` of src/backend/runtime/call-hub-core.ts).
use yurucommu_core.Base.{
  Bool, true, false, Option, none, some, List, [], ◌∷◌, JsString, lookup, insert, if◌then◌else◌,
  is_some,
}
use yurucommu_core.Calls.Wire.{
  CallMediaKind, CallIceCandidate, RtcSignalType, CallState, outgoing, ringing, connecting, ended,
  rejected, cancelled, ClientToHubFrame, HubToClientFrame, hello, invite, resume, ping,
}
use yurucommu_core.Calls.Hub.{
  CallRecord, CallHub, HubPort, broadcast, reply, persist, emit, active_calls, transition, moved,
  make_envelope, relay, with_call, is_ringing, is_connected, none_, rejected_, ended_, cancelled_,
}

-- `calls.set`, with the call persisted
unfoldable pub register : CallRecord → CallHub → CallHub
register call h = emit (persist call) (record h { calls = insert call.call_id call h.calls })

unfoldable pub new_outgoing_call : HubPort → JsString → JsString → CallMediaKind → CallRecord
new_outgoing_call port call_id to media = record {
  call_id = call_id;
  peer_ap_id = to;
  peer_signal_endpoint = none;
  direction = outgoing;
  state = ringing;
  media = media;
  sfu_focus = (port.provision_media media).sfu_focus;
  created_at = port.now;
  updated_at = port.now;
  connected_at = none;
  generation = port.new_call_generation;
}

-- The invite from where the media are provisioned: the id is not looked up again.
unfoldable pub finish_invite : HubPort → JsString → JsString → CallMediaKind → CallHub → CallHub
unfolding new_outgoing_call
finish_invite port call_id to media h =
    let provided = port.provision_media media in
    emit (broadcast (HubToClientFrame.call_state call_id ringing)) (
      emit (reply (HubToClientFrame.ice_servers call_id provided.ice_servers provided.sfu_focus))
        (register (new_outgoing_call port call_id to media) h))

unfoldable pub on_client_invite : HubPort → JsString → JsString → CallMediaKind → CallHub → CallHub
unfolding finish_invite
on_client_invite port call_id to media h =
    let invited = finish_invite port call_id to media h in
    if is_some (lookup call_id h.calls) then h else invited

unfoldable pub relay_offer : HubPort → JsString → CallRecord → CallHub → CallHub
relay_offer port sdp call h =
    (relay port call
      (record (make_envelope port call RtcSignalType.offer) {
        sdp = some sdp;
        media = some call.media;
      })
      none_ h).0

unfoldable pub on_client_offer : HubPort → JsString → JsString → CallHub → CallHub
on_client_offer port call_id sdp = with_call call_id (relay_offer port sdp)

-- `if (call.state === "ringing") this.transition(call, "connecting")`; the relay that follows
-- goes on with the same, changed, object.
abbrev pub answered : HubPort → CallRecord → CallHub → CallHub
answered port call h = if is_ringing call.state then transition port call connecting h else h

abbrev pub answered_call : HubPort → CallRecord → CallRecord
answered_call port call = if is_ringing call.state then moved port.now connecting call else call

unfoldable pub relay_answer : HubPort → JsString → CallRecord → CallHub → CallHub
relay_answer port sdp call h =
    (relay port (answered_call port call)
      (record (make_envelope port call RtcSignalType.answer) { sdp = some sdp }) none_
      (answered port call h)).0

unfoldable pub on_client_answer : HubPort → JsString → JsString → CallHub → CallHub
on_client_answer port call_id sdp = with_call call_id (relay_answer port sdp)

unfoldable pub relay_candidates : HubPort → List CallIceCandidate → CallRecord → CallHub → CallHub
relay_candidates port [] call h = h
relay_candidates port (c ∷ cs) call h =
    (relay port call
      (record (make_envelope port call RtcSignalType.candidate) { candidates = some (c ∷ cs) })
      none_ h).0

unfoldable pub on_client_candidates : HubPort → JsString → List CallIceCandidate → CallHub → CallHub
on_client_candidates port call_id cs = with_call call_id (relay_candidates port cs)

unfoldable pub relay_accept : HubPort → CallRecord → CallHub → CallHub
relay_accept port call h =
    (relay port (answered_call port call) (make_envelope port call RtcSignalType.accept) none_
      (answered port call h)).0

unfoldable pub on_client_accept : HubPort → JsString → CallHub → CallHub
on_client_accept port call_id = with_call call_id (relay_accept port)

-- `if (await this.relay(...)) this.transition(call, state)`
unfoldable pub transition_if : HubPort → CallRecord → CallState → CallHub × Bool → CallHub
transition_if port call state (h, true) = transition port call state h
transition_if port call state (h, false) = h

unfoldable pub relay_reject : HubPort → Option JsString → CallRecord → CallHub → CallHub
relay_reject port reason call h = transition_if port call rejected (
    relay port call (record (make_envelope port call RtcSignalType.reject) { reason = reason })
      rejected_ h)

unfoldable pub on_client_reject : HubPort → JsString → Option JsString → CallHub → CallHub
on_client_reject port call_id reason = with_call call_id (relay_reject port reason)

-- A hangup before the connection is a cancel.
unfoldable pub relay_hangup : HubPort → Option JsString → CallRecord → CallHub → CallHub
relay_hangup port reason call h =
    if is_connected call.state
    then transition_if port call ended (
        relay port call (record (make_envelope port call RtcSignalType.hangup) { reason = reason })
          ended_ h)
    else transition_if port call cancelled (
        relay port call (record (make_envelope port call RtcSignalType.cancel) { reason = reason })
          cancelled_ h)

unfoldable pub on_client_hangup : HubPort → JsString → Option JsString → CallHub → CallHub
on_client_hangup port call_id reason = with_call call_id (relay_hangup port reason)

abbrev pub resumed_state : Option CallRecord → CallState
resumed_state none = ended
resumed_state (some call) = call.state

unfoldable pub on_client_resume : JsString → CallHub → CallHub
on_client_resume call_id h =
    emit (reply (HubToClientFrame.call_state call_id (resumed_state (lookup call_id h.calls)))) h

-- The active calls, told one by one to a tab that reconnects.
unfoldable pub announce : List CallRecord → CallHub → CallHub
announce [] h = h
announce (call ∷ calls) h =
    announce calls (emit (reply (HubToClientFrame.call_state call.call_id call.state)) h)

unfoldable pub handle_client_frame : HubPort → ClientToHubFrame → CallHub → CallHub
handle_client_frame port hello h = announce (active_calls h) (emit (reply HubToClientFrame.ready) h)
handle_client_frame port ping h = emit (reply HubToClientFrame.pong) h
handle_client_frame port (invite call_id to media) h = on_client_invite port call_id to media h
handle_client_frame port (ClientToHubFrame.offer call_id sdp) h = on_client_offer port call_id sdp h
handle_client_frame port (ClientToHubFrame.answer call_id sdp) h =
    on_client_answer port call_id sdp h
handle_client_frame port (ClientToHubFrame.candidates call_id cs) h =
    on_client_candidates port call_id cs h
handle_client_frame port (ClientToHubFrame.accept call_id) h = on_client_accept port call_id h
handle_client_frame port (ClientToHubFrame.reject call_id reason) h =
    on_client_reject port call_id reason h
handle_client_frame port (ClientToHubFrame.hangup call_id reason) h =
    on_client_hangup port call_id reason h
handle_client_frame port (resume call_id) h = on_client_resume call_id h

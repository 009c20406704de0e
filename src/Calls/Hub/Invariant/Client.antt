-- ===== src/Calls/Hub/Invariant/Client.antt =====
-- The handlers of the browser's frames keep the hub well formed.
use yurucommu_core.Base.{refl, Option, List, [], ◌∷◌, JsString, lookup, is_some}
use yurucommu_core.Calls.Wire.{
  CallMediaKind, CallIceCandidate, ended, rejected, cancelled, ClientToHubFrame, hello, invite,
  resume, ping,
}
use yurucommu_core.Calls.Hub.{CallRecord, CallHub, HubPort, is_connected}
use yurucommu_core.Calls.Hub.Client.{
  relay_offer, relay_answer, relay_candidates, relay_accept, relay_reject, relay_hangup, announce,
  finish_invite, handle_client_frame, on_client_invite, on_client_offer, on_client_answer,
  on_client_candidates, on_client_accept, on_client_reject, on_client_hangup, on_client_resume,
}
use yurucommu_core.Calls.Hub.Invariant.{
  IsHub, emitted, relay-IsHub, with_call-IsHub, if-IsHub, register-IsHub, answered-IsHub,
  transition_if-IsHub,
}

announce-IsHub : {h : CallHub} (calls : List CallRecord) → IsHub h → IsHub (announce calls h)
unfolding announce
announce-IsHub [] v = v
announce-IsHub (call ∷ calls) v = announce-IsHub calls (emitted _ v)

module _ {h : CallHub} (port : HubPort) (call : CallRecord) (v : IsHub h) where
  relay_offer-IsHub : (sdp : JsString) → IsHub (relay_offer port sdp call h)
  unfolding relay_offer
  relay_offer-IsHub sdp = relay-IsHub port.lane port call _ _ v

  relay_answer-IsHub : (sdp : JsString) → IsHub (relay_answer port sdp call h)
  unfolding relay_answer
  relay_answer-IsHub sdp = relay-IsHub port.lane port _ _ _ (answered-IsHub port call v)

  relay_candidates-IsHub : (cs : List CallIceCandidate) → IsHub (relay_candidates port cs call h)
  unfolding relay_candidates
  relay_candidates-IsHub [] = v
  relay_candidates-IsHub (c ∷ cs) = relay-IsHub port.lane port call _ _ v

  relay_accept-IsHub : IsHub (relay_accept port call h)
  unfolding relay_accept
  relay_accept-IsHub = relay-IsHub port.lane port _ _ _ (answered-IsHub port call v)

  relay_reject-IsHub : (reason : Option JsString) → IsHub (relay_reject port reason call h)
  unfolding relay_reject
  relay_reject-IsHub reason =
      transition_if-IsHub port call rejected _ (λ e. cc) (relay-IsHub port.lane port call _ _ v)

  relay_hangup-IsHub : (reason : Option JsString) → IsHub (relay_hangup port reason call h)
  unfolding relay_hangup
  relay_hangup-IsHub reason =
      if-IsHub (is_connected call.state)
        (transition_if-IsHub port call ended _ (λ e. cc) (relay-IsHub port.lane port call _ _ v))
        (transition_if-IsHub port call cancelled _ (λ e. cc)
          (relay-IsHub port.lane port call _ _ v))

pub finish_invite-IsHub :
    {h : CallHub} (port : HubPort) (call_id to : JsString) (media : CallMediaKind)
    → IsHub h
    → IsHub (finish_invite port call_id to media h)
unfolding finish_invite
finish_invite-IsHub port call_id to media v = emitted _ (emitted _ (register-IsHub _ refl v))

pub handle_client_frame-IsHub :
    {h : CallHub} (port : HubPort) (frame : ClientToHubFrame)
    → IsHub h
    → IsHub (handle_client_frame port frame h)
unfolding handle_client_frame on_client_invite on_client_offer on_client_answer on_client_candidates
    on_client_accept on_client_reject on_client_hangup on_client_resume
handle_client_frame-IsHub port hello v = announce-IsHub _ (emitted _ v)
handle_client_frame-IsHub port ping v = emitted _ v
handle_client_frame-IsHub {h} port (invite call_id to media) v =
    if-IsHub (is_some (lookup call_id h.calls)) v (finish_invite-IsHub port call_id to media v)
handle_client_frame-IsHub port (ClientToHubFrame.offer call_id sdp) v =
    with_call-IsHub call_id (relay_offer port sdp) (λ call. relay_offer-IsHub port call v sdp) v
handle_client_frame-IsHub port (ClientToHubFrame.answer call_id sdp) v =
    with_call-IsHub call_id (relay_answer port sdp) (λ call. relay_answer-IsHub port call v sdp) v
handle_client_frame-IsHub port (ClientToHubFrame.candidates call_id cs) v =
    with_call-IsHub call_id (relay_candidates port cs)
      (λ call. relay_candidates-IsHub port call v cs) v
handle_client_frame-IsHub port (ClientToHubFrame.accept call_id) v =
    with_call-IsHub call_id (relay_accept port) (λ call. relay_accept-IsHub port call v) v
handle_client_frame-IsHub port (ClientToHubFrame.reject call_id reason) v =
    with_call-IsHub call_id (relay_reject port reason)
      (λ call. relay_reject-IsHub port call v reason) v
handle_client_frame-IsHub port (ClientToHubFrame.hangup call_id reason) v =
    with_call-IsHub call_id (relay_hangup port reason)
      (λ call. relay_hangup-IsHub port call v reason) v
handle_client_frame-IsHub port (resume call_id) v = emitted _ v

-- ===== src/Calls/Hub/Progress/Events.antt =====
-- Over every event, a call that is there before and after is the same call, no less far.
use yurucommu_core.Base.{
  ◌≡◌, none, refl, Bool, true, false, some, List, [], ◌∷◌, JsString, lookup, if◌then◌else◌,
  Option-cases, inl, inr, AllEntries-lookup,
}
use yurucommu_core.Calls.Wire.{
  CallMediaKind, RtcSignalType, RtcSignalEnvelope, ended, rejected, missed, failed, cancelled,
  ClientToHubFrame, is_envelope_fresh, is_terminal_call_state, hello, invite, resume, ping,
}
use yurucommu_core.Calls.Hub.{
  CallRecord, CallHub, HubPort, CallRelayContinuation, settle, settle_if, complete_deferred_relay,
  same_generation, is_outgoing, none_, rejected_, ended_, cancelled_, glare,
}
use yurucommu_core.Calls.Hub.Client.{
  new_outgoing_call, finish_invite, announce, handle_client_frame, on_client_invite,
  on_client_offer, on_client_answer, on_client_candidates, on_client_accept, on_client_reject,
  on_client_hangup, on_client_resume, relay_offer, relay_answer, relay_candidates, relay_accept,
  relay_reject, relay_hangup,
}
use yurucommu_core.Calls.Hub.Peer.{
  on_peer_answer, on_peer_candidate, on_peer_accept, on_peer_reject, on_peer_hangup,
  handle_inbound_signal, dispatch_signal, no_candidates, take_answer, take_candidates, take_accept,
  take_reject, take_hangup, connect, mark_connected, expire, rings_too_long, connects_too_long,
  sweep, tick,
}
use yurucommu_core.Calls.Hub.Events.{
  Event, client_frame, peer_signal, established, relay_result, alarm, late_invite, late_offer,
  late_yield, late_settle, step, IsTimely,
}
use yurucommu_core.Calls.Hub.Invariant.{IsCall, IsHub}
use yurucommu_core.Calls.Hub.Progress.{
  Later, Shrinks, Shrinks-refl, Shrinks-trans, Shrinks-transition_terminal,
}
use yurucommu_core.Calls.Hub.Progress.Steps.{
  Shrinks-relay, Shrinks-if, Shrinks-with_call, Shrinks-relay_answer, Shrinks-relay_candidates,
  Shrinks-relay_accept, Shrinks-relay_reject, Shrinks-relay_hangup, Shrinks-take_answer,
  Shrinks-take_accept, Shrinks-take_reject, Shrinks-take_hangup, Shrinks-connect,
}
use yurucommu_core.Calls.Hub.Progress.Offers.{
  Keeps, Shrinks-Keeps, Keeps-register, Keeps-if, Keeps-refl, Keeps-on_peer_offer,
  Keeps-accept_offer, Keeps-yield_to_offer,
}

Keeps-finish_invite :
    (port : HubPort) (id to : JsString) (media : CallMediaKind) (h : CallHub)
    → lookup id h.calls ≡ none
    → Keeps h (finish_invite port id to media h)
unfolding finish_invite
Keeps-finish_invite port id to media h missing = record {
  at =
      (Keeps-register (new_outgoing_call port id to media) h h (unfold new_outgoing_call in missing)
        (Shrinks-refl h)).at;
}

Keeps-invite :
    (port : HubPort) (id to : JsString) (media : CallMediaKind) (h : CallHub)
    → Keeps h (on_client_invite port id to media h)
unfolding on_client_invite
Keeps-invite port id to media h = elim (Option-cases (lookup id h.calls)) [
  | inr (call, found) ↦ rw found (Keeps-refl h)
  | inl missing ↦ rw missing (Keeps-finish_invite port id to media h missing)
]

Shrinks-announce :
    (calls : List CallRecord) (h j : CallHub) → Shrinks h j → Shrinks h (announce calls j)
unfolding announce
Shrinks-announce [] h j s = s
Shrinks-announce (call ∷ calls) h j s = Shrinks-announce calls h _ (record { at = s.at })

Keeps-client_frame :
    (port : HubPort) (frame : ClientToHubFrame) (h : CallHub)
    → IsHub h
    → Keeps h (handle_client_frame port frame h)
unfolding handle_client_frame on_client_offer on_client_answer on_client_candidates on_client_accept
    on_client_reject on_client_hangup on_client_resume relay_offer
Keeps-client_frame port hello h v =
    Shrinks-Keeps (Shrinks-announce _ h _ (record { at = (Shrinks-refl h).at }))
Keeps-client_frame port ping h v = record { at = (Keeps-refl h).at }
Keeps-client_frame port (invite call_id to media) h v = Keeps-invite port call_id to media h
Keeps-client_frame port (ClientToHubFrame.offer call_id sdp) h v = Shrinks-Keeps (
    Shrinks-with_call call_id (relay_offer port sdp) h v
      (λ call e. Shrinks-relay port.lane port call _ _ h))
Keeps-client_frame port (ClientToHubFrame.answer call_id sdp) h v = Shrinks-Keeps (
    Shrinks-with_call call_id (relay_answer port sdp) h v
      (λ call e. Shrinks-relay_answer port call h e sdp))
Keeps-client_frame port (ClientToHubFrame.candidates call_id cs) h v = Shrinks-Keeps (
    Shrinks-with_call call_id (relay_candidates port cs) h v
      (λ call e. Shrinks-relay_candidates port call h e cs))
Keeps-client_frame port (ClientToHubFrame.accept call_id) h v = Shrinks-Keeps (
    Shrinks-with_call call_id (relay_accept port) h v
      (λ call e. Shrinks-relay_accept port call h e))
Keeps-client_frame port (ClientToHubFrame.reject call_id reason) h v = Shrinks-Keeps (
    Shrinks-with_call call_id (relay_reject port reason) h v
      (λ call e. Shrinks-relay_reject port call h e reason))
Keeps-client_frame port (ClientToHubFrame.hangup call_id reason) h v = Shrinks-Keeps (
    Shrinks-with_call call_id (relay_hangup port reason) h v
      (λ call e. Shrinks-relay_hangup port call h e reason))
Keeps-client_frame port (resume call_id) h v = record { at = (Keeps-refl h).at }

Shrinks-take_candidates :
    (envelope : RtcSignalEnvelope) (call : CallRecord) (h : CallHub)
    → Shrinks h (take_candidates envelope call h)
unfolding take_candidates
Shrinks-take_candidates envelope call h =
    Shrinks-if (no_candidates envelope.candidates) (λ _. Shrinks-refl h)
      (λ _. record { at = (Shrinks-refl h).at })

Keeps-dispatch :
    (port : HubPort) (envelope : RtcSignalEnvelope) (t : RtcSignalType) (h : CallHub)
    → IsHub h
    → Keeps h (dispatch_signal port envelope t h)
unfolding on_peer_answer on_peer_candidate on_peer_accept on_peer_reject on_peer_hangup
Keeps-dispatch port envelope RtcSignalType.offer h v = Keeps-on_peer_offer port envelope h
Keeps-dispatch port envelope RtcSignalType.answer h v = Shrinks-Keeps (
    Shrinks-with_call envelope.call_id (take_answer port envelope) h v
      (λ call e. Shrinks-take_answer port call h e envelope))
Keeps-dispatch port envelope RtcSignalType.candidate h v = Shrinks-Keeps (
    Shrinks-with_call envelope.call_id (take_candidates envelope) h v
      (λ call e. Shrinks-take_candidates envelope call h))
Keeps-dispatch port envelope RtcSignalType.accept h v = Shrinks-Keeps (
    Shrinks-with_call envelope.call_id (take_accept port) h v
      (λ call e. Shrinks-take_accept port call h e))
Keeps-dispatch port envelope RtcSignalType.reject h v = Shrinks-Keeps (
    Shrinks-with_call envelope.call_id (take_reject port envelope) h v
      (λ call e. Shrinks-take_reject port call h e envelope))
Keeps-dispatch port envelope RtcSignalType.hangup h v = Shrinks-Keeps (
    Shrinks-with_call envelope.call_id (take_hangup port envelope) h v
      (λ call e. Shrinks-take_hangup port call h e envelope))
Keeps-dispatch port envelope RtcSignalType.cancel h v = Shrinks-Keeps (
    Shrinks-with_call envelope.call_id (take_hangup port envelope) h v
      (λ call e. Shrinks-take_hangup port call h e envelope))

Shrinks-settle :
    (port : HubPort) (c : CallRelayContinuation) (accepted : Bool) (call : CallRecord) (h : CallHub)
    → Shrinks h (settle port c accepted call h)
Shrinks-settle port c false call h = record {
  at = (Shrinks-transition_terminal port call failed _ refl).at;
}
Shrinks-settle port none_ true call h = Shrinks-refl h
Shrinks-settle port rejected_ true call h = Shrinks-transition_terminal port call rejected h refl
Shrinks-settle port ended_ true call h = Shrinks-transition_terminal port call ended h refl
Shrinks-settle port cancelled_ true call h = Shrinks-transition_terminal port call cancelled h refl
Shrinks-settle port glare true call h = Shrinks-transition_terminal port call cancelled h refl

expired_over : (b : Bool) → is_terminal_call_state (if b then cancelled else missed) ≡ true
expired_over true = refl
expired_over false = refl

Shrinks-expire : (port : HubPort) (call : CallRecord) (h : CallHub) → Shrinks h (expire port call h)
unfolding expire
Shrinks-expire port call h =
    Shrinks-if (rings_too_long port call)
      (λ _. Shrinks-transition_terminal port call _ h (expired_over (is_outgoing call.direction)))
      (λ _.
        Shrinks-if (connects_too_long port call)
          (λ _. Shrinks-transition_terminal port call failed h refl) (λ _. Shrinks-refl h))

Shrinks-sweep :
    (port : HubPort) (calls : List CallRecord) (h : CallHub) → Shrinks h (sweep port calls h)
unfolding sweep
Shrinks-sweep port [] h = Shrinks-refl h
Shrinks-sweep port (call ∷ calls) h =
    Shrinks-trans (Shrinks-expire port call h) (Shrinks-sweep port calls (expire port call h))

Keeps-step :
    (port : HubPort) (e : Event) (h : CallHub) → IsHub h → IsTimely e h → Keeps h (step port e h)
unfolding step handle_inbound_signal mark_connected complete_deferred_relay tick
Keeps-step port (client_frame frame) h v t = Keeps-client_frame port frame h v
Keeps-step port (peer_signal envelope) h v t =
    Keeps-if (is_envelope_fresh envelope port.now)
      (Keeps-dispatch port envelope envelope.signal_type h v) (Keeps-refl h)
Keeps-step port (established call_id) h v t = Shrinks-Keeps (
    Shrinks-with_call call_id (connect port) h v (λ call e.
      Shrinks-connect port call h e (AllEntries-lookup IsCall call.call_id h.calls v.sound e).1))
Keeps-step port (relay_result call_id generation c accepted) h v t = Shrinks-Keeps (
    Shrinks-with_call call_id (settle_if port generation c accepted) h v (λ call e.
      Shrinks-if (same_generation call.generation generation)
        (λ _. Shrinks-settle port c accepted call h) (λ _. Shrinks-refl h)))
Keeps-step port alarm h v t = Shrinks-Keeps (Shrinks-sweep port _ h)
Keeps-step port (late_invite call_id to media) h v t = Keeps-finish_invite port call_id to media h t
Keeps-step port (late_offer envelope) h v t =
    Keeps-accept_offer port envelope h h t (Shrinks-refl h)
Keeps-step port (late_yield envelope ours) h v t =
    Keeps-yield_to_offer port envelope ours h (h, true) t (Shrinks-refl h)
Keeps-step port (late_settle call continuation accepted) h v t =
    Shrinks-Keeps (Shrinks-settle port continuation accepted call h)

-- Over one event, of whatever kind and with whatever answers of the port, a call that is in the hub
-- before it and after it is the same call, with the same peer, direction, media, creation time and
-- generation, and its state has not gone back. The event is a handler from its start, up to its end
-- or a wait, or the rest of a handler after a wait; the rest of an invite or of an offer, which
-- registers its call without looking again, is covered only if the id is still unknown then.
pub step-Later :
    (port : HubPort) (e : Event) (h : CallHub) (k : JsString) (c c' : CallRecord)
    → IsHub h
    → IsTimely e h
    → lookup k h.calls ≡ some c
    → lookup k (step port e h).calls ≡ some c'
    → Later c c'
step-Later port e h k c c' v t p q = (Keeps-step port e h v t).at k c c' p q

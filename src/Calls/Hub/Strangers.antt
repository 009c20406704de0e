-- ===== src/Calls/Hub/Strangers.antt =====
-- Who may end a call: the hub reads the id of a signal and not its sender.
use yurucommu_core.Base.{
  ◌≡◌, ◌⊎◌, refl, true, false, Bool, none, JsString, lookup, if◌then◌else◌, AllEntries-lookup,
  lookup-remove_self, inl, inr, Option-cases,
}
use yurucommu_core.Calls.Wire.{
  RtcSignalType, RtcSignalEnvelope, CallState, cancelled, ended, rejected, is_envelope_fresh,
  is_terminal_call_state,
}
use yurucommu_core.Calls.Hub.{CallRecord, CallHub, HubPort, transition, falsy, with_call}
use yurucommu_core.Calls.Hub.Peer.{
  handle_inbound_signal, on_peer_hangup, on_peer_reject, take_hangup, take_reject,
}
use yurucommu_core.Calls.Hub.Invariant.{IsCall, IsHub}

over : (b : Bool) → is_terminal_call_state (if b then cancelled else ended) ≡ true
over true = refl
over false = refl

ends :
    (port : HubPort) (call : CallRecord) (state : CallState) (h : CallHub)
    → is_terminal_call_state state ≡ true
    → lookup call.call_id (transition port call state h).calls ≡ none
unfolding transition
ends port call state h t = rw t (lookup-remove_self call.call_id h.calls)

-- A handler that takes out the call that it is given takes out the call of its id.
with_call_ends :
    (id : JsString) (f : CallRecord → CallHub → CallHub) (h : CallHub)
    → IsHub h
    → ((call : CallRecord) → lookup call.call_id (f call h).calls ≡ none)
    → lookup id (with_call id f h).calls ≡ none
with_call_ends id f h v gone = elim (Option-cases (lookup id h.calls)) [
  | inl missing ↦ rw (missing, with_call) missing
  | inr (call, found) ↦
      rw (found, with_call)
        (rw (← (AllEntries-lookup IsCall id h.calls v.sound found).0) (gone call))
]

abbrev pub IsEnding : RtcSignalType → Type 0
IsEnding t = (t ≡ RtcSignalType.hangup) ⊎ (t ≡ RtcSignalType.cancel) ⊎ (t ≡ RtcSignalType.reject)

-- A fresh hangup, cancel or reject ends the call of its id, whoever sent it: no premise relates
-- the sender to the call's peer.
pub ending_signal_ends :
    (port : HubPort) (envelope : RtcSignalEnvelope) (h : CallHub)
    → IsHub h
    → is_envelope_fresh envelope port.now ≡ true
    → IsEnding envelope.signal_type
    → lookup envelope.call_id (handle_inbound_signal port envelope h).calls ≡ none
unfolding handle_inbound_signal on_peer_hangup on_peer_reject take_hangup take_reject
ending_signal_ends port envelope h v fresh (inl t) =
    rw (fresh, t)
      (with_call_ends envelope.call_id (take_hangup port envelope) h v
        (λ call. ends port call _ _ (over (falsy call.connected_at))))
ending_signal_ends port envelope h v fresh (inr (inl t)) =
    rw (fresh, t)
      (with_call_ends envelope.call_id (take_hangup port envelope) h v
        (λ call. ends port call _ _ (over (falsy call.connected_at))))
ending_signal_ends port envelope h v fresh (inr (inr t)) =
    rw (fresh, t)
      (with_call_ends envelope.call_id (take_reject port envelope) h v
        (λ call. ends port call rejected _ refl))

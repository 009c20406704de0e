-- ===== src/Calls/Hub/Progress/Steps.antt =====
-- Each handler moves the calls of a hub forward, and starts a call only under an unknown id.
use yurucommu_core.Base.{
  ◌≡◌, refl, ap, ◌∙◌, Bool, true, false, Option, some, List, [], ◌∷◌, JsString, lookup,
  if◌then◌else◌, arith, Option-cases, inl, inr, AllEntries-lookup,
}
use yurucommu_core.Calls.Wire.{
  CallIceCandidate, RtcSignalEnvelope, CallState, connecting, connected, ended, rejected, failed,
  cancelled, is_terminal_call_state,
}
use yurucommu_core.Calls.Hub.{
  CallRecord, CallHub, HubPort, CallRelayContinuation, Lane, direct, deferred, relay_on,
  is_connected, is_ringing, with_call, falsy, empty_text,
}
use yurucommu_core.Calls.Hub.Client.{
  answered, transition_if, relay_answer, relay_candidates, relay_accept, relay_reject, relay_hangup,
}
use yurucommu_core.Calls.Hub.Peer.{take_answer, take_accept, take_reject, take_hangup, connect}
use yurucommu_core.Calls.Hub.Events.{step}
use yurucommu_core.Calls.Hub.Invariant.{IsCall, IsHub}
use yurucommu_core.Calls.Hub.Progress.{
  Shrinks, Shrinks-refl, Shrinks-trans, Shrinks-transition, Shrinks-transition_terminal,
}

pub Shrinks-relay :
    (lane : Lane) (port : HubPort) (call : CallRecord) (envelope : RtcSignalEnvelope)
    (continuation : CallRelayContinuation) (h : CallHub)
    → Shrinks h (relay_on lane port call envelope continuation h).0
unfolding relay_on
Shrinks-relay (deferred true) port call envelope continuation h = record {
  at = (Shrinks-refl h).at;
}
Shrinks-relay (deferred false) port call envelope continuation h = record {
  at = (Shrinks-transition_terminal port call failed _ refl).at;
}
Shrinks-relay (direct true) port call envelope continuation h = record { at = (Shrinks-refl h).at }
Shrinks-relay (direct false) port call envelope continuation h = record {
  at = (Shrinks-transition_terminal port call failed _ refl).at;
}

pub Shrinks-if :
    {h : CallHub} (b : Bool) {j k : CallHub}
    → (b ≡ true → Shrinks h j)
    → (b ≡ false → Shrinks h k)
    → Shrinks h (if b then j else k)
Shrinks-if true s t = s refl
Shrinks-if false s t = t refl

-- The call that a handler finds stands under the id that it names.
pub Shrinks-with_call :
    (id : JsString) (f : CallRecord → CallHub → CallHub) (h : CallHub)
    → IsHub h
    → ((call : CallRecord) → lookup call.call_id h.calls ≡ some call → Shrinks h (f call h))
    → Shrinks h (with_call id f h)
Shrinks-with_call id f h v step = elim (Option-cases (lookup id h.calls)) [
  | inl missing ↦ rw (missing, with_call) (Shrinks-refl h)
  | inr (call, found) ↦
      rw (found, with_call)
        (step call (
          ap (λ k. lookup k h.calls) (AllEntries-lookup IsCall id h.calls v.sound found).0 ∙ found))
]

pub Shrinks-answered :
    (port : HubPort) (call : CallRecord) (h : CallHub)
    → lookup call.call_id h.calls ≡ some call
    → Shrinks h (answered port call h)
Shrinks-answered port call h e =
    Shrinks-if (is_ringing call.state)
      (λ r. Shrinks-transition port call connecting h e (ground arith)) (λ _. Shrinks-refl h)

pub Shrinks-transition_if :
    (port : HubPort) (call : CallRecord) (state : CallState) (r : CallHub × Bool)
    → is_terminal_call_state state ≡ true
    → Shrinks r.0 (transition_if port call state r)
unfolding transition_if
Shrinks-transition_if port call state (h, true) t = Shrinks-transition_terminal port call state h t
Shrinks-transition_if port call state (h, false) t = Shrinks-refl h

module _ (port : HubPort) (call : CallRecord) (h : CallHub)
    (e : lookup call.call_id h.calls ≡ some call) where
  pub Shrinks-relay_answer : (sdp : JsString) → Shrinks h (relay_answer port sdp call h)
  unfolding relay_answer
  Shrinks-relay_answer sdp =
      Shrinks-trans (Shrinks-answered port call h e) (Shrinks-relay port.lane port _ _ _ _)

  pub Shrinks-relay_candidates :
      (cs : List CallIceCandidate) → Shrinks h (relay_candidates port cs call h)
  unfolding relay_candidates
  Shrinks-relay_candidates [] = Shrinks-refl h
  Shrinks-relay_candidates (c ∷ cs) = Shrinks-relay port.lane port call _ _ h

  pub Shrinks-relay_accept : Shrinks h (relay_accept port call h)
  unfolding relay_accept
  Shrinks-relay_accept =
      Shrinks-trans (Shrinks-answered port call h e) (Shrinks-relay port.lane port _ _ _ _)

  pub Shrinks-relay_reject :
      (reason : Option JsString) → Shrinks h (relay_reject port reason call h)
  unfolding relay_reject
  Shrinks-relay_reject reason =
      Shrinks-trans (Shrinks-relay port.lane port call _ _ h)
        (Shrinks-transition_if port call rejected _ refl)

  pub Shrinks-relay_hangup :
      (reason : Option JsString) → Shrinks h (relay_hangup port reason call h)
  unfolding relay_hangup
  Shrinks-relay_hangup reason =
      Shrinks-if (is_connected call.state)
        (λ _.
          Shrinks-trans (Shrinks-relay port.lane port call _ _ h)
            (Shrinks-transition_if port call ended _ refl))
        (λ _.
          Shrinks-trans (Shrinks-relay port.lane port call _ _ h)
            (Shrinks-transition_if port call cancelled _ refl))

  pub Shrinks-take_answer :
      (envelope : RtcSignalEnvelope) → Shrinks h (take_answer port envelope call h)
  unfolding take_answer
  Shrinks-take_answer envelope =
      Shrinks-if (empty_text envelope.sdp) (λ _. Shrinks-refl h)
        (λ _. record { at = (Shrinks-answered port call h e).at })

  pub Shrinks-take_accept : Shrinks h (take_accept port call h)
  unfolding take_accept
  Shrinks-take_accept = record { at = (Shrinks-answered port call h e).at }

  pub Shrinks-take_reject :
      (envelope : RtcSignalEnvelope) → Shrinks h (take_reject port envelope call h)
  unfolding take_reject
  Shrinks-take_reject envelope = record {
    at = (Shrinks-transition_terminal port call rejected _ refl).at;
  }

  over : (b : Bool) → is_terminal_call_state (if b then cancelled else ended) ≡ true
  over true = refl
  over false = refl

  pub Shrinks-take_hangup :
      (envelope : RtcSignalEnvelope) → Shrinks h (take_hangup port envelope call h)
  unfolding take_hangup
  Shrinks-take_hangup envelope = record {
    at = (Shrinks-transition_terminal port call _ _ (over (falsy call.connected_at))).at;
  }

  pub Shrinks-connect : is_terminal_call_state call.state ≡ false → Shrinks h (connect port call h)
  unfolding connect
  Shrinks-connect live =
      Shrinks-if (is_connected call.state) (λ _. Shrinks-refl h)
        (λ c. Shrinks-transition port call connected h e (ground arith))

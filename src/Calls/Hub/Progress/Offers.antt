-- ===== src/Calls/Hub/Progress/Offers.antt =====
-- Over the registering of a call, and the offer of a peer, no call is replaced by another one.
use mathlib.Core.Option.{some-injective}
use yurucommu_core.Base.{
  not, ◌≡◌, refl, sym, ap, Bool, true, false, Option, none, some, JsString, lookup, if◌then◌else◌,
  str_eq, str_eq_iff, arith, Bool-cases, Option-cases, inl, inr, lookup-insert,
}
use yurucommu_core.Calls.Wire.{RtcSignalEnvelope, cancelled}
use yurucommu_core.Calls.Hub.{CallRecord, CallHub, HubPort, Effect, emit_if, empty_text}
use yurucommu_core.Calls.Hub.Client.{register}
use yurucommu_core.Calls.Hub.Peer.{
  announce_offer, new_incoming_call, accept_offer, yield_to_offer, on_peer_offer, is_polite,
  outgoing_to_peer,
}
use yurucommu_core.Calls.Hub.Progress.{
  Later, Evolved, Shrinks, Shrinks-refl, Shrinks-trans, Shrinks-transition_terminal,
}
use yurucommu_core.Calls.Hub.Progress.Steps.{Shrinks-relay}

-- What is there before and after is the same call, no less far.
pub record Keeps (h h' : CallHub) : Type 0 where
  pub at :
      (k : JsString) (c c' : CallRecord)
      → lookup k h.calls ≡ some c
      → lookup k h'.calls ≡ some c'
      → Later c c'

pub Shrinks-Keeps : {h h' : CallHub} → Shrinks h h' → Keeps h h'
Shrinks-Keeps {h} {h'} s = record {
  at = λ k c c' e e'. go (lookup k h.calls) (lookup k h'.calls) e e' (s.at k);
}
  where
    go :
        (o o' : Option CallRecord) {c c' : CallRecord}
        → o ≡ some c
        → o' ≡ some c'
        → Evolved o o'
        → Later c c'
    go o none e e' l = cc
    go none (some x') e e' l = cc
    go (some x) (some x') e e' l = rw (some-injective _ _ (sym e), some-injective _ _ (sym e')) l

-- A call is registered only under an id that the hub does not know.
pub Keeps-register :
    (call : CallRecord) (h j : CallHub)
    → lookup call.call_id h.calls ≡ none
    → Shrinks h j
    → Keeps h (register call j)
unfolding register
Keeps-register call h j fresh s = record {
  at = λ k c c' e e'. elim (Bool-cases (str_eq call.call_id k)) [
    | inl same ↦ cc (fresh, ap (λ i. lookup i h.calls) ((str_eq_iff call.call_id k).0 same), e)
    | inr other ↦
        (Shrinks-Keeps s).at k c c' e
          (ground (arith, lookup-insert call.call_id k call j.calls, e'))
  ];
}

pub Keeps-emit_if : {h j : CallHub} (b : Bool) (e : Effect) → Keeps h j → Keeps h (emit_if b e j)
Keeps-emit_if true e s = record { at = s.at }
Keeps-emit_if false e s = s

pub Keeps-announce_offer :
    {h j : CallHub} (port : HubPort) (envelope : RtcSignalEnvelope) (call : CallRecord)
    → Keeps h j
    → Keeps h (announce_offer port envelope call j)
unfolding announce_offer
Keeps-announce_offer {h} {j} port envelope call s =
    Keeps-emit_if (not (empty_text envelope.sdp)) _
      (Keeps-emit_if port.has_clients _ (Keeps-emit_if port.has_clients _ (record { at = s.at })))

pub Keeps-accept_offer :
    (port : HubPort) (envelope : RtcSignalEnvelope) (h j : CallHub)
    → lookup envelope.call_id h.calls ≡ none
    → Shrinks h j
    → Keeps h (accept_offer port envelope j)
unfolding accept_offer
Keeps-accept_offer port envelope h j fresh s =
    Keeps-announce_offer port envelope _
      (Keeps-register (new_incoming_call port envelope) h j (unfold new_incoming_call in fresh) s)

pub Keeps-yield_to_offer :
    (port : HubPort) (envelope : RtcSignalEnvelope) (ours : CallRecord) (h : CallHub)
    (r : CallHub × Bool)
    → lookup envelope.call_id h.calls ≡ none
    → Shrinks h r.0
    → Keeps h (yield_to_offer port envelope ours r)
unfolding yield_to_offer
Keeps-yield_to_offer port envelope ours h (j, false) fresh s = Shrinks-Keeps s
Keeps-yield_to_offer port envelope ours h (j, true) fresh s =
    Keeps-accept_offer port envelope h _ fresh
      (Shrinks-trans s (Shrinks-transition_terminal port ours cancelled j refl))

pub Keeps-if :
    {h : CallHub} (b : Bool) {j k : CallHub} → Keeps h j → Keeps h k → Keeps h (if b then j else k)
Keeps-if true s t = s
Keeps-if false s t = t

pub Keeps-refl : (h : CallHub) → Keeps h h
Keeps-refl h = Shrinks-Keeps (Shrinks-refl h)

pub Keeps-on_peer_offer :
    (port : HubPort) (envelope : RtcSignalEnvelope) (h : CallHub)
    → Keeps h (on_peer_offer port envelope h)
unfolding on_peer_offer
Keeps-on_peer_offer port envelope h = elim (Option-cases (lookup envelope.call_id h.calls)) [
  | inr (call, found) ↦ rw found (Keeps-announce_offer port envelope call (Keeps-refl h))
  | inl missing ↦ elim (Option-cases (outgoing_to_peer envelope.from h)) [
    | inl quiet ↦
        rw (missing, quiet) (Keeps-accept_offer port envelope h h missing (Shrinks-refl h))
    | inr (ours, dialled) ↦
        rw (missing, dialled)
          (Keeps-if (is_polite port envelope.from)
            (Keeps-yield_to_offer port envelope ours h _ missing
              (Shrinks-relay port.lane port ours _ _ h))
            (Keeps-refl h))
  ]
]

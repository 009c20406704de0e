-- ===== src/Calls/Hub/Progress.antt =====
-- A call only moves forward, and stays the call that it was.
mod Steps
mod Offers
pub mod Events
use yurucommu_core.Base.{
  ℕ, ◌≤◌, ◌≡◌, ◌≢◌, refl, sym, ap, ◌∙◌, Bool, true, false, Option, none, some, List, [], ◌∷◌,
  JsString, JsMap, lookup, insert, remove, modify, if◌then◌else◌, is_some, str_eq, str_eq_iff,
  str_eq_refl, arith, Bool-cases, Option-cases, inl, inr, lookup-insert, lookup-remove,
  lookup-modify, lookup-insert_ne, AllEntries-lookup,
}
use yurucommu_core.Calls.Wire.{
  CallIceCandidate, RtcSignalType, RtcSignalEnvelope, CallState, idle, ringing, connecting,
  connected, ended, rejected, missed, failed, cancelled, ClientToHubFrame, is_envelope_fresh,
  is_terminal_call_state, hello, invite, accept, reject, hangup, resume, ping,
}
use yurucommu_core.Calls.Hub.{
  CallRecord, CallHub, HubPort, Effect, CallRelayContinuation, Lane, direct, deferred, transition,
  moved, relay, relay_on, is_connected, is_ringing, with_call, emit, emit_if, values, settle,
  settle_if, complete_deferred_relay, same_generation, falsy, empty_text, is_outgoing, none_,
  rejected_, ended_, cancelled_, glare,
}
use yurucommu_core.Calls.Hub.Client.{
  register, answered, transition_if, announce, handle_client_frame, on_client_invite,
  on_client_offer, on_client_answer, on_client_candidates, on_client_accept, on_client_reject,
  on_client_hangup, on_client_resume, relay_offer, relay_answer, relay_candidates, relay_accept,
  relay_reject, relay_hangup,
}
use yurucommu_core.Calls.Hub.Peer.{
  announce_offer, accept_offer, yield_to_offer, on_peer_offer, on_peer_answer, on_peer_candidate,
  on_peer_accept, on_peer_reject, on_peer_hangup, handle_inbound_signal, dispatch_signal, is_polite,
  outgoing_to_peer, no_candidates, take_answer, take_candidates, take_accept, take_reject,
  take_hangup, connect, mark_connected, expire, sweep, tick,
}
use yurucommu_core.Calls.Hub.Events.{
  Event, client_frame, peer_signal, established, relay_result, alarm, step,
}
use yurucommu_core.Calls.Hub.Invariant.{IsCall, IsHub}

-- How far a call has come.
abbrev pub rank : CallState → ℕ
rank idle = 0
rank ringing = 1
rank connecting = 2
rank connected = 3
rank _ = 4

-- The same call, no less far.
pub record Later (c c' : CallRecord) : Type 0 where
  pub same_call : c'.call_id ≡ c.call_id
  pub same_peer : c'.peer_ap_id ≡ c.peer_ap_id
  pub same_direction : c'.direction ≡ c.direction
  pub same_media : c'.media ≡ c.media
  pub same_creation : c'.created_at ≡ c.created_at
  pub same_generation : c'.generation ≡ c.generation
  pub forward : rank c.state ≤ rank c'.state

-- The entry of an id is gone, or is the same call, later.
abbrev pub Evolved : Option CallRecord → Option CallRecord → Type 0
Evolved o none = Unit
Evolved none (some c) = ⊥
Evolved (some c) (some c') = Later c c'

Later-refl : (c : CallRecord) → Later c c
Later-refl c = ground arith

Later-trans : {a b c : CallRecord} → Later a b → Later b c → Later a c
Later-trans h k = ground arith

Evolved-refl : (o : Option CallRecord) → Evolved o o
Evolved-refl none = tt
Evolved-refl (some c) = Later-refl c

Evolved-trans : (a b c : Option CallRecord) → Evolved a b → Evolved b c → Evolved a c
Evolved-trans a b none h k = tt
Evolved-trans a none (some c) h k = absurd k
Evolved-trans none (some b) (some c) h k = absurd h
Evolved-trans (some a) (some b) (some c) h k = Later-trans h k

-- No call of `h'` is new.
pub record Shrinks (h h' : CallHub) : Type 0 where
  pub at : (k : JsString) → Evolved (lookup k h.calls) (lookup k h'.calls)

Shrinks-refl : (h : CallHub) → Shrinks h h
Shrinks-refl h = record { at = λ k. Evolved-refl (lookup k h.calls) }

Shrinks-trans : {a b c : CallHub} → Shrinks a b → Shrinks b c → Shrinks a c
Shrinks-trans {a} {b} {c} s t = record {
  at =
      λ k. Evolved-trans (lookup k a.calls) (lookup k b.calls) (lookup k c.calls) (s.at k) (t.at k);
}

removed : (id k : JsString) (m : JsMap CallRecord) → Evolved (lookup k m) (lookup k (remove id m))
removed id k m = elim (Bool-cases (str_eq id k)) [
  | inl same ↦ rw (lookup-remove, same) tt
  | inr other ↦ rw (lookup-remove, other) (Evolved-refl (lookup k m))
]

-- A call that ends leaves the map, whatever the map held.
Shrinks-transition_terminal :
    (port : HubPort) (call : CallRecord) (state : CallState) (h : CallHub)
    → is_terminal_call_state state ≡ true
    → Shrinks h (transition port call state h)
unfolding transition
Shrinks-transition_terminal port call state h t =
    rw t (record { at = λ k. removed call.call_id k h.calls })

modified :
    (id k : JsString) (c' : CallRecord) (m : JsMap CallRecord) {c : CallRecord}
    → lookup id m ≡ some c
    → Later c c'
    → Evolved (lookup k m) (lookup k (modify id (λ _. c') m))
modified id k c' m {c} e l = elim (Bool-cases (str_eq id k)) [
  | inl same ↦
      let at_k : lookup k m ≡ some c = ap (λ j. lookup j m) (sym ((str_eq_iff id k).0 same)) ∙ e in
      rw (lookup-modify, same, at_k) l
  | inr other ↦ rw (lookup-modify, other) (Evolved-refl (lookup k m))
]

-- A call in the map that moves to a state no less far.
Shrinks-transition :
    (port : HubPort) (call : CallRecord) (state : CallState) (h : CallHub)
    → lookup call.call_id h.calls ≡ some call
    → rank call.state ≤ rank state
    → Shrinks h (transition port call state h)
unfolding transition moved
Shrinks-transition port call state h e l = elim (Bool-cases (is_terminal_call_state state)) [
  | inl over ↦ rw over (record { at = λ k. removed call.call_id k h.calls })
  | inr live ↦ rw live (record { at = λ k. modified call.call_id k _ h.calls e (ground arith) })
]

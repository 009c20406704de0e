-- ===== src/Calls/Hub/Sweep.antt =====
-- The periodic sweep, entry by entry, and what a stale signal does.
use yurucommu_core.Base.{
  ◌+◌, ◌<◌, ◌≡◌, ◌⊎◌, refl, sym, ap, ◌∙◌, Bool, true, false, ◌||◌, Option, none, some, [], ◌∷◌,
  JsString, JsMap, lookup, remove, if◌then◌else◌, str_eq, str_eq_iff, arith, Bool-cases, inl, inr,
  lookup-remove, AllEntries, HasUniqueKeys,
}
use yurucommu_core.Calls.Wire.{
  RtcSignalEnvelope, CallState, missed, failed, cancelled, is_envelope_fresh,
  is_terminal_call_state,
}
use yurucommu_core.Calls.Hub.{CallRecord, CallHub, HubPort, transition, is_outgoing, values}
use yurucommu_core.Calls.Hub.Peer.{
  expire, rings_too_long, connects_too_long, sweep, tick, handle_inbound_signal,
}
use yurucommu_core.Calls.Hub.Invariant.{IsCall, IsHub}

-- A call that never got its answer, or never got connected, in time.
abbrev pub is_stuck : HubPort → CallRecord → Bool
is_stuck port call = rings_too_long port call || connects_too_long port call

-- What the sweep leaves of an entry.
abbrev pub kept : HubPort → Option CallRecord → Option CallRecord
kept port none = none
kept port (some call) = if is_stuck port call then none else some call

-- The same, of an entry that the sweep of earlier entries has left as `o`.
abbrev swept : HubPort → Option CallRecord → Option CallRecord → Option CallRecord
swept port none o = o
swept port (some call) o = if is_stuck port call then none else o

missed_is_over : (b : Bool) → is_terminal_call_state (if b then cancelled else missed) ≡ true
missed_is_over true = refl
missed_is_over false = refl

calls-transition :
    (port : HubPort) (call : CallRecord) (state : CallState) (h : CallHub)
    → is_terminal_call_state state ≡ true
    → (transition port call state h).calls ≡ remove call.call_id h.calls
unfolding transition
calls-transition port call state h t = rw t refl

calls-expire :
    (port : HubPort) (call : CallRecord) (h : CallHub)
    → (expire port call h).calls
      ≡ (if is_stuck port call then remove call.call_id h.calls else h.calls)
unfolding expire
calls-expire port call h = elim (Bool-cases (rings_too_long port call)) [
  | inl r ↦ rw r (calls-transition port call _ h (missed_is_over (is_outgoing call.direction)))
  | inr r ↦ elim (Bool-cases (connects_too_long port call)) [
    | inl c ↦ rw (r, c) (calls-transition port call failed h refl)
    | inr c ↦ rw (r, c) refl
  ]
]

lookup-expire :
    (port : HubPort) (call : CallRecord) (h : CallHub) (k : JsString)
    → lookup k (expire port call h).calls ≡ (
        if str_eq call.call_id k
        then swept port (some call) (lookup k h.calls)
        else lookup k h.calls)
lookup-expire port call h k = rw calls-expire (elim (Bool-cases (is_stuck port call)) [
  | inl s ↦ rw s (lookup-remove call.call_id k h.calls)
  | inr s ↦ rw s (ground arith)
])

lookup-sweep :
    (port : HubPort) (m : JsMap CallRecord) (h : CallHub) (k : JsString)
    → HasUniqueKeys m
    → AllEntries IsCall m
    → lookup k (sweep port (values m) h).calls ≡ swept port (lookup k m) (lookup k h.calls)
unfolding sweep lookup
lookup-sweep port [] h k u a = refl
lookup-sweep port ((j, c) ∷ m) h k (f, u) (p, a) =
    lookup-sweep port m (expire port c h) k u a
    ∙ rw (lookup-expire, p.0)
        (elim (Bool-cases (str_eq j k)) [
          | inl same ↦ rw (same, at_k ((str_eq_iff j k).0 same)) refl
          | inr other ↦ rw other refl
        ])
  where
    at_k : j ≡ k → lookup k m ≡ none
    at_k e = ap (λ i. lookup i m) (sym e) ∙ f

-- The sweep takes out the calls that have rung for more than 45 seconds, or have been connecting
-- for more than 40, and leaves every other call as it was.
pub lookup-tick :
    (port : HubPort) (h : CallHub) (k : JsString)
    → IsHub h
    → lookup k (tick port h).calls ≡ kept port (lookup k h.calls)
unfolding tick
lookup-tick port h k v = lookup-sweep port h.calls h k v.unique v.sound ∙ once (lookup k h.calls)
  where
    once : (o : Option CallRecord) → swept port o o ≡ kept port o
    once none = refl
    once (some c) = refl

-- A signal that was sent more than half a minute ahead of our clock, or is older than its own
-- time to live, changes nothing and tells nobody.
pub stale_signal_dropped :
    (port : HubPort) (envelope : RtcSignalEnvelope) (h : CallHub)
    → (port.now + 30000 < envelope.ts) ⊎ (envelope.ts + envelope.ttl_ms < port.now)
    → handle_inbound_signal port envelope h ≡ h
unfolding handle_inbound_signal is_envelope_fresh
stale_signal_dropped port envelope h s = ground arith

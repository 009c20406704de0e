-- ===== src/Calls/Hub/Glare.antt =====
-- Two actors who call each other at once end with one call, the same on both sides.
use yurucommu_core.Base.{
  ◌≡◌, ◌≢◌, ◌⊎◌, refl, sym, ◌∙◌, Bool, true, false, not, none, some, JsString, lookup, insert,
  is_some, str_gt, str_gt_asymm, str_gt_total, Bool-cases, inl, inr, lookup-insert_self,
  lookup-insert_ne, lookup-remove_self,
}
use yurucommu_core.Calls.Wire.{RtcSignalType, RtcSignalEnvelope, is_envelope_fresh}
use yurucommu_core.Calls.Hub.{
  CallRecord, CallHub, HubPort, direct, transition, relay_on, emit_if, Effect, empty_text,
}
use yurucommu_core.Calls.Hub.Client.{register}
use yurucommu_core.Calls.Hub.Peer.{
  handle_inbound_signal, on_peer_offer, accept_offer, announce_offer, yield_to_offer,
  new_incoming_call, outgoing_to_peer, is_polite,
}

calls-emit_if : (b : Bool) (e : Effect) (h : CallHub) → (emit_if b e h).calls ≡ h.calls
calls-emit_if true e h = refl
calls-emit_if false e h = refl

calls-announce_offer :
    (port : HubPort) (envelope : RtcSignalEnvelope) (call : CallRecord) (h : CallHub)
    → (announce_offer port envelope call h).calls ≡ h.calls
unfolding announce_offer
calls-announce_offer port envelope call h =
    calls-emit_if (not (empty_text envelope.sdp)) _ _
    ∙ (calls-emit_if port.has_clients _ _ ∙ calls-emit_if port.has_clients _ _)

-- The hub that has accepted an offer holds it.
calls-accept_offer :
    (port : HubPort) (envelope : RtcSignalEnvelope) (h : CallHub)
    → (accept_offer port envelope h).calls
      ≡ insert envelope.call_id (new_incoming_call port envelope) h.calls
unfolding accept_offer register new_incoming_call
calls-accept_offer port envelope h = calls-announce_offer port envelope _ _

-- A fresh offer of a peer whom we are ringing ourselves, under another id.
pub record IsGlare (port : HubPort) (h : CallHub) (ours : CallRecord) (envelope : RtcSignalEnvelope)
    : Type 0 where
  pub online : port.lane ≡ direct true
  pub is_offer : envelope.signal_type ≡ RtcSignalType.offer
  pub fresh : is_envelope_fresh envelope port.now ≡ true
  pub unknown : lookup envelope.call_id h.calls ≡ none
  pub dialling : outgoing_to_peer envelope.from h ≡ some ours
  pub held : lookup ours.call_id h.calls ≡ some ours
  pub other_id : ours.call_id ≢ envelope.call_id

module _ (port : HubPort) (h : CallHub) (ours : CallRecord) (envelope : RtcSignalEnvelope)
    (g : IsGlare port h ours envelope) where
  impolite_ignores :
      is_polite port envelope.from ≡ false → handle_inbound_signal port envelope h ≡ h
  unfolding handle_inbound_signal on_peer_offer
  impolite_ignores i = rw (g.fresh, g.is_offer, g.unknown, g.dialling, i) refl

  polite_yields :
      is_polite port envelope.from ≡ true
      → (lookup ours.call_id (handle_inbound_signal port envelope h).calls ≡ none)
        × (lookup envelope.call_id (handle_inbound_signal port envelope h).calls
            ≡ some (new_incoming_call port envelope))
  unfolding handle_inbound_signal on_peer_offer yield_to_offer relay_on transition
  polite_yields i =
      rw (g.fresh, g.is_offer, g.unknown, g.dialling, i, g.online)
        (
          rw calls-accept_offer (
              lookup-insert_ne envelope.call_id ours.call_id _ _ (λ e. g.other_id (sym e))
              ∙ lookup-remove_self ours.call_id h.calls),
          rw calls-accept_offer (lookup-insert_self envelope.call_id _ _),
        )

-- The hub holds the first call and not the second.
abbrev pub HoldsOnly : JsString → JsString → CallHub → Type 0
HoldsOnly x y h = (is_some (lookup x h.calls) ≡ true) × (lookup y h.calls ≡ none)

module _ (pa pb : HubPort) (ha hb : CallHub) (ca cb : CallRecord) (ea eb : RtcSignalEnvelope)
    (ga : IsGlare pa ha ca eb) (gb : IsGlare pb hb cb ea) (ia : ea.call_id ≡ ca.call_id)
    (ib : eb.call_id ≡ cb.call_id) where
  -- The side with the greater id gives way, and the other one keeps its call.
  one_gives_way :
      is_polite pa eb.from ≡ true
      → is_polite pb ea.from ≡ false
      → HoldsOnly cb.call_id ca.call_id (handle_inbound_signal pa eb ha)
        × HoldsOnly cb.call_id ca.call_id (handle_inbound_signal pb ea hb)
  one_gives_way p i =
      let y = polite_yields pa ha ca eb ga p in
      (
        (rw (← ib, y.1) refl, y.0),
        rw (impolite_ignores pb hb cb ea gb i) (rw gb.held refl, rw (← ia) gb.unknown),
      )

not_both : (x y : JsString) → x ≢ y → str_gt x y ≡ false → str_gt y x ≡ true
not_both x y ne l = elim (Bool-cases (str_gt y x)) [
  | inl g ↦ g
  | inr r ↦ absurd (ne (str_gt_total x y l r))
]

-- Two actors with different ids dial each other at once, under different ids of a call, and each
-- one's offer, still fresh, reaches the other while it rings. If both hubs send their signals
-- directly and each sending succeeds, so that the hub that gives way is known to have cancelled,
-- and nothing comes between while an offer is handled, then both hubs hold the same one of the two
-- calls afterwards, and not the other. If the cancel fails or is put off, nothing is stated.
pub glare_converges :
    (pa pb : HubPort) (ha hb : CallHub) (ca cb : CallRecord) (ea eb : RtcSignalEnvelope)
    → IsGlare pa ha ca eb
    → IsGlare pb hb cb ea
    → ea.call_id ≡ ca.call_id
    → eb.call_id ≡ cb.call_id
    → ea.from ≡ pa.local_actor_ap_id
    → eb.from ≡ pb.local_actor_ap_id
    → pa.local_actor_ap_id ≢ pb.local_actor_ap_id
    → (HoldsOnly cb.call_id ca.call_id (handle_inbound_signal pa eb ha)
        × HoldsOnly cb.call_id ca.call_id (handle_inbound_signal pb ea hb))
      ⊎ (HoldsOnly ca.call_id cb.call_id (handle_inbound_signal pa eb ha)
          × HoldsOnly ca.call_id cb.call_id (handle_inbound_signal pb ea hb))
glare_converges pa pb ha hb ca cb ea eb ga gb ia ib fa fb ne =
    let x = pa.local_actor_ap_id in
    let y = pb.local_actor_ap_id in
    elim (Bool-cases (str_gt x y)) [
      | inl g ↦
          inl (
            one_gives_way pa pb ha hb ca cb ea eb ga gb ia ib (rw fb g)
              (rw fa (str_gt_asymm x y g)))
      | inr l ↦
          let g : str_gt y x ≡ true = not_both x y ne l in
          let r = one_gives_way pb pa hb ha cb ca eb ea gb ga ib ia (rw fa g) (rw fb l) in
          inr (r.1, r.0)
    ]

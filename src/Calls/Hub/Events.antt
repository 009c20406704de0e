-- ===== src/Calls/Hub/Events.antt =====
-- What reaches a hub: a frame of the browser, a signal of a peer, an established connection, the
-- result of a deferred relay, or the clock. A handler that waits for the media or for a relay may go
-- on when other events have come between: the `late` events are the rest of such a handler, with
-- what it knew before the wait.
use yurucommu_core.Base.{Bool, true, none, List, [], ◌∷◌, ◌≡◌, lookup, JsString}
use yurucommu_core.Calls.Wire.{CallMediaKind, ClientToHubFrame, RtcSignalEnvelope}
use yurucommu_core.Calls.Hub.{
  CallRecord, CallHub, HubPort, CallRelayContinuation, complete_deferred_relay, settle,
}
use yurucommu_core.Calls.Hub.Client.{handle_client_frame, finish_invite}
use yurucommu_core.Calls.Hub.Peer.{
  accept_offer, yield_to_offer, handle_inbound_signal, mark_connected, tick,
}

pub data Event : Type 0 where
  client_frame : ClientToHubFrame → Event
  peer_signal : RtcSignalEnvelope → Event
  established : JsString → Event
  relay_result : JsString → JsString → CallRelayContinuation → Bool → Event
  alarm : Event
  late_invite : JsString → JsString → CallMediaKind → Event
  late_offer : RtcSignalEnvelope → Event
  late_yield : RtcSignalEnvelope → CallRecord → Event
  late_settle : CallRecord → CallRelayContinuation → Bool → Event

unfoldable pub step : HubPort → Event → CallHub → CallHub
step port (client_frame frame) h = handle_client_frame port frame h
step port (peer_signal envelope) h = handle_inbound_signal port envelope h
step port (established call_id) h = mark_connected port call_id h
step port (relay_result call_id generation continuation accepted) h =
    complete_deferred_relay port call_id generation continuation accepted h
step port alarm h = tick port h
step port (late_invite call_id to media) h = finish_invite port call_id to media h
step port (late_offer envelope) h = accept_offer port envelope h
step port (late_yield envelope ours) h = yield_to_offer port envelope ours (h, true)
step port (late_settle call continuation accepted) h = settle port continuation accepted call h

-- The rest of a handler that registers a call finds its id still unknown.
abbrev pub IsTimely : Event → CallHub → Type 0
IsTimely (late_invite call_id to media) h = lookup call_id h.calls ≡ none
IsTimely (late_offer envelope) h = lookup envelope.call_id h.calls ≡ none
IsTimely (late_yield envelope ours) h = lookup envelope.call_id h.calls ≡ none
IsTimely _ h = Unit

-- Events one after another, each with the port's state at its time.
unfoldable pub run : List (HubPort × Event) → CallHub → CallHub
run [] h = h
run ((port, e) ∷ es) h = run es (step port e h)

abbrev pub new_hub : CallHub
new_hub = record { calls = []; effects = [] }

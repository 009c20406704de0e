-- ===== src/Calls/Hub/Invariant/Runs.antt =====
-- The invariant over whole runs.
use yurucommu_core.Base.{true, List, [], ◌∷◌}
use yurucommu_core.Calls.Hub.{CallHub, HubPort}
use yurucommu_core.Calls.Hub.Events.{
  Event, client_frame, peer_signal, established, relay_result, alarm, late_invite, late_offer,
  late_yield, late_settle, step, run, new_hub,
}
use yurucommu_core.Calls.Hub.Invariant.{IsHub}
use yurucommu_core.Calls.Hub.Invariant.Client.{handle_client_frame-IsHub, finish_invite-IsHub}
use yurucommu_core.Calls.Hub.Invariant.Peer.{
  accept_offer-IsHub, yield_to_offer-IsHub, settle-IsHub, handle_inbound_signal-IsHub,
  mark_connected-IsHub, complete_deferred_relay-IsHub, tick-IsHub,
}

pub step-IsHub : {h : CallHub} (port : HubPort) (e : Event) → IsHub h → IsHub (step port e h)
unfolding step
step-IsHub port (client_frame frame) v = handle_client_frame-IsHub port frame v
step-IsHub port (peer_signal envelope) v = handle_inbound_signal-IsHub port envelope v
step-IsHub port (established call_id) v = mark_connected-IsHub port call_id v
step-IsHub port (relay_result call_id generation c accepted) v =
    complete_deferred_relay-IsHub port call_id generation c accepted v
step-IsHub port alarm v = tick-IsHub port v
step-IsHub port (late_invite call_id to media) v = finish_invite-IsHub port call_id to media v
step-IsHub port (late_offer envelope) v = accept_offer-IsHub port envelope v
step-IsHub {h} port (late_yield envelope ours) v =
    yield_to_offer-IsHub port envelope ours (h, true) v
step-IsHub port (late_settle call continuation accepted) v =
    settle-IsHub port continuation accepted call v

run_from-IsHub : (h : CallHub) (es : List (HubPort × Event)) → IsHub h → IsHub (run es h)
unfolding run
run_from-IsHub h [] v = v
run_from-IsHub h ((port, e) ∷ es) v = run_from-IsHub (step port e h) es (step-IsHub port e v)

-- After any events, the rests of handlers that were interrupted at a wait among them, with any
-- answers of the port, a hub holds each call once, under its own id,
-- holds no call that is over or idle, and knows of each connected call when it was connected.
pub run-IsHub : (es : List (HubPort × Event)) → IsHub (run es new_hub)
run-IsHub es = run_from-IsHub new_hub es (record { unique = tt; sound = tt })

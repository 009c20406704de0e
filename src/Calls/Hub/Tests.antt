-- ===== src/Calls/Hub/Tests.antt =====
-- Two instances in a call, and the theorems at concrete inputs.
use yurucommu_core.Base.{
  ℕ, ◌≡◌, ◌⊎◌, refl, true, false, none, some, [], ◌∷◌, JsString, js, lookup, insert, remove, modify,
  str_eq, str_ne,
}
use yurucommu_core.Calls.Wire.{
  CallMediaKind, RtcSignalType, RtcSignalEnvelope, connecting, connected, invite, is_envelope_fresh,
}
use yurucommu_core.Calls.Hub.{CallRecord, CallHub, HubPort, direct, transition, moved, active_calls}
use yurucommu_core.Calls.Hub.Client.{
  finish_invite, register, new_outgoing_call, on_client_invite, handle_client_frame,
}
use yurucommu_core.Calls.Hub.Peer.{
  handle_inbound_signal, on_peer_accept, take_accept, outgoing_to_peer, mark_connected, connect,
  tick, sweep, expire,
}
use yurucommu_core.Calls.Hub.Events.{
  Event, client_frame, peer_signal, established, alarm, late_invite, step, run, new_hub,
}
use yurucommu_core.Calls.Hub.Invariant.{IsHub}
use yurucommu_core.Calls.Hub.Invariant.Runs.{run-IsHub}
use yurucommu_core.Calls.Hub.Progress.{Later}
use yurucommu_core.Calls.Hub.Progress.Events.{step-Later}
use yurucommu_core.Calls.Hub.Glare.{IsGlare, HoldsOnly, glare_converges}

abbrev alice : JsString
alice = js "https://a.example/ap/users/alice"

abbrev bob : JsString
bob = js "https://b.example/ap/users/bob"

abbrev audio_only : CallMediaKind
audio_only = record { audio = true; video = false }

abbrev port_of : JsString → ℕ → HubPort
port_of actor now = record {
  local_actor_ap_id = actor;
  has_clients = true;
  lane = direct true;
  new_call_generation = none;
  provision_media = λ m. record { ice_servers = []; sfu_focus = none };
  now = now;
}

abbrev signal : JsString → JsString → JsString → RtcSignalType → ℕ → RtcSignalEnvelope
signal from to id t ts = record {
  call_id = id;
  from = from;
  to = to;
  signal_type = t;
  media = some audio_only;
  sdp = some (js "v=0");
  candidates = none;
  sfu_focus = none;
  reason = none;
  ts = ts;
  ttl_ms = 30000;
}

abbrev dials : JsString → JsString → JsString → HubPort × Event
dials from to id = (port_of from 1000, client_frame (invite id to audio_only))

-- Alice calls Bob as "c1", while Bob calls Alice as "c2".
abbrev at_alice : CallHub
at_alice = run (dials alice bob (js "c1") ∷ []) new_hub

abbrev at_bob : CallHub
at_bob = run (dials bob alice (js "c2") ∷ []) new_hub

abbrev call_of : JsString → JsString → JsString → CallRecord
call_of from to id = new_outgoing_call (port_of from 1000) id to audio_only

at_alice-IsHub : IsHub at_alice
at_alice-IsHub = run-IsHub (dials alice bob (js "c1") ∷ [])

at_alice_rings : lookup (js "c1") at_alice.calls ≡ some (call_of alice bob (js "c1"))
unfolding run step handle_client_frame on_client_invite register lookup insert str_eq
at_alice_rings = refl

-- The accepted and connected call, and what a sweep makes of one that nobody answers.
conversation :
    (active_calls (
        run
          (dials alice bob (js "c1")
            ∷ (
              port_of alice 2000,
              peer_signal (signal bob alice (js "c1") RtcSignalType.accept 2000),
            )
            ∷ (port_of alice 3000, established (js "c1"))
            ∷ [])
          new_hub)
      ≡ record (call_of alice bob (js "c1")) {
        state = connected;
        updated_at = 3000;
        connected_at = some 3000;
      }
        ∷ [])
    × (active_calls (run (dials alice bob (js "c1") ∷ (port_of alice 46001, alarm) ∷ []) new_hub)
        ≡ [])
    × (active_calls (run (dials alice bob (js "c1") ∷ (port_of alice 46000, alarm) ∷ []) new_hub)
        ≡ call_of alice bob (js "c1") ∷ [])
unfolding run step handle_client_frame on_client_invite register lookup insert str_eq
    new_outgoing_call handle_inbound_signal is_envelope_fresh on_peer_accept take_accept transition
    moved modify remove mark_connected connect tick sweep expire active_calls
conversation = (refl, refl, refl)

-- Two invites of one id that overlap: the second goes on after its wait and replaces the first.
overlapping_invites :
    lookup
      (js "c1")
      (run
        (dials alice bob (js "c1")
          ∷ (port_of alice 1500, late_invite (js "c1") (js "carol") audio_only)
          ∷ [])
        new_hub).calls
    ≡ some (new_outgoing_call (port_of alice 1500) (js "c1") (js "carol") audio_only)
unfolding run step handle_client_frame on_client_invite finish_invite register lookup insert str_eq
overlapping_invites = refl

run-IsHub_example : IsHub (run (dials alice bob (js "c1") ∷ []) new_hub)
run-IsHub_example = run-IsHub (dials alice bob (js "c1") ∷ [])

abbrev rung : CallRecord
rung = call_of alice bob (js "c1")

step-Later_example : Later rung (record rung { state = connecting; updated_at = 2000 })
unfolding run step handle_client_frame on_client_invite register lookup insert str_eq
    new_outgoing_call handle_inbound_signal is_envelope_fresh on_peer_accept take_accept transition
    moved modify
step-Later_example =
    step-Later (port_of alice 2000)
      (peer_signal (signal bob alice (js "c1") RtcSignalType.accept 2000)) at_alice (js "c1") rung
      (record rung { state = connecting; updated_at = 2000 }) at_alice-IsHub tt refl refl

abbrev offer_of_bob : RtcSignalEnvelope
offer_of_bob = signal bob alice (js "c2") RtcSignalType.offer 1000

abbrev offer_of_alice : RtcSignalEnvelope
offer_of_alice = signal alice bob (js "c1") RtcSignalType.offer 1000

at_alice-IsGlare : IsGlare (port_of alice 1500) at_alice (call_of alice bob (js "c1")) offer_of_bob
unfolding run step handle_client_frame on_client_invite register lookup insert str_eq
    new_outgoing_call is_envelope_fresh outgoing_to_peer
at_alice-IsGlare = record {
  online = refl;
  is_offer = refl;
  fresh = refl;
  unknown = refl;
  dialling = refl;
  held = refl;
  other_id = str_ne (js "c1") (js "c2") refl;
}

at_bob-IsGlare : IsGlare (port_of bob 1500) at_bob (call_of bob alice (js "c2")) offer_of_alice
unfolding run step handle_client_frame on_client_invite register lookup insert str_eq
    new_outgoing_call is_envelope_fresh outgoing_to_peer
at_bob-IsGlare = record {
  online = refl;
  is_offer = refl;
  fresh = refl;
  unknown = refl;
  dialling = refl;
  held = refl;
  other_id = str_ne (js "c2") (js "c1") refl;
}

glare_converges_example :
    (HoldsOnly
        (js "c2")
        (js "c1")
        (handle_inbound_signal (port_of alice 1500) offer_of_bob at_alice)
      × HoldsOnly
          (js "c2")
          (js "c1")
          (handle_inbound_signal (port_of bob 1500) offer_of_alice at_bob))
    ⊎ (HoldsOnly
          (js "c1")
          (js "c2")
          (handle_inbound_signal (port_of alice 1500) offer_of_bob at_alice)
        × HoldsOnly
            (js "c1")
            (js "c2")
            (handle_inbound_signal (port_of bob 1500) offer_of_alice at_bob))
unfolding new_outgoing_call str_eq
glare_converges_example =
    glare_converges (port_of alice 1500) (port_of bob 1500) at_alice at_bob
      (call_of alice bob (js "c1")) (call_of bob alice (js "c2")) offer_of_alice offer_of_bob
      at_alice-IsGlare at_bob-IsGlare refl refl refl refl (str_ne alice bob refl)

-- ===== src/Calls/Wire.antt =====
-- packages/api/src/types/call.ts: the frames and envelopes of call signaling. Times are natural
-- numbers of milliseconds.
use yurucommu_core.Base.{ℕ, ◌+◌, Bool, true, false, Option, List, JsString, ltb, leb, if◌then◌else◌}

pub record CallMediaKind : Type 0 where
  pub audio : Bool
  pub video : Bool

pub data RtcSignalType : Type 0 where
  offer answer candidate accept reject hangup cancel : RtcSignalType

pub record SfuFocus : Type 0 where
  pub kind : JsString
  pub url : JsString
  pub token : Option JsString
  pub room : Option JsString

pub record CallIceCandidate : Type 0 where
  pub candidate : JsString
  pub sdp_mid : Option JsString
  pub sdp_m_line_index : Option ℕ
  pub username_fragment : Option JsString

pub record IceServerConfig : Type 0 where
  pub urls : List JsString
  pub username : Option JsString
  pub credential : Option JsString

-- `sfu_focus` is `undefined`, null or a focus.
pub record RtcSignalEnvelope : Type 0 where
  pub call_id : JsString
  pub from : JsString
  pub to : JsString
  pub signal_type : RtcSignalType
  pub media : Option CallMediaKind
  pub sdp : Option JsString
  pub candidates : Option (List CallIceCandidate)
  pub sfu_focus : Option (Option SfuFocus)
  pub reason : Option JsString
  pub ts : ℕ
  pub ttl_ms : ℕ

pub data CallState : Type 0 where
  idle ringing connecting connected ended rejected missed failed cancelled : CallState

pub data CallDirection : Type 0 where
  incoming outgoing : CallDirection

-- `TERMINAL_CALL_STATES.includes(state)`
abbrev pub is_terminal_call_state : CallState → Bool
is_terminal_call_state ended = true
is_terminal_call_state rejected = true
is_terminal_call_state missed = true
is_terminal_call_state failed = true
is_terminal_call_state cancelled = true
is_terminal_call_state _ = false

-- Frames that the browser sends up; the fields after the call's id are those of the frame.
pub data ClientToHubFrame : Type 0 where
  hello : ClientToHubFrame
  invite : JsString → JsString → CallMediaKind → ClientToHubFrame
  offer : JsString → JsString → ClientToHubFrame
  answer : JsString → JsString → ClientToHubFrame
  candidates : JsString → List CallIceCandidate → ClientToHubFrame
  accept : JsString → ClientToHubFrame
  reject : JsString → Option JsString → ClientToHubFrame
  hangup : JsString → Option JsString → ClientToHubFrame
  resume : JsString → ClientToHubFrame
  ping : ClientToHubFrame

-- Frames pushed down to the browser.
pub data HubToClientFrame : Type 0 where
  ready : HubToClientFrame
  ringing : JsString → JsString → CallMediaKind → HubToClientFrame
  offer : JsString → JsString → Option CallMediaKind → HubToClientFrame
  answer : JsString → JsString → HubToClientFrame
  candidates : JsString → List CallIceCandidate → HubToClientFrame
  peer_accepted : JsString → HubToClientFrame
  peer_rejected : JsString → Option JsString → HubToClientFrame
  peer_hangup : JsString → Option JsString → HubToClientFrame
  ice_servers : JsString → List IceServerConfig → Option SfuFocus → HubToClientFrame
  call_state : JsString → CallState → HubToClientFrame
  pong : HubToClientFrame
  error : JsString → Option JsString → HubToClientFrame

abbrev skew_tolerance_ms : ℕ
skew_tolerance_ms = 30000

-- `envelope.ts - now > skew` and `now - envelope.ts <= ttl`, with no subtraction
unfoldable pub is_envelope_fresh : RtcSignalEnvelope → ℕ → Bool
is_envelope_fresh envelope now =
    if ltb (now + skew_tolerance_ms) envelope.ts
    then false
    else leb now (envelope.ts + envelope.ttl_ms)

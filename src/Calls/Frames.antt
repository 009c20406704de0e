-- ===== src/Calls/Frames.antt =====
-- `parseClientToHubFrame` of packages/api/src/types/call.ts. A candidate's fields that are null or
-- missing are not told apart, as in the type of a candidate here.
pub mod Checked
pub mod Limits
mod Tests
use yurucommu_core.Base.{
  ℕ, zero, suc, ◌+◌, ◌*◌, Bool, true, false, not, ◌&&◌, ◌||◌, Option, none, some, List, [], ◌∷◌,
  JsString, js, str_eq, if◌then◌else◌, ltb, leb, between, length,
}
use yurucommu_core.Base.Json.{
  Json, null, bool, nat, negative, fraction, str, arr, obj, Fields, field, Items, items, prop,
}
use yurucommu_core.Calls.Wire.{CallMediaKind, CallIceCandidate, ClientToHubFrame}

abbrev pub max_rtc_client_frame_bytes : ℕ
max_rtc_client_frame_bytes = 1024 * 1024

abbrev pub max_rtc_sdp_bytes : ℕ
max_rtc_sdp_bytes = 100000

-- The bytes of the UTF-8 encoding: a pair of surrogates takes four, a lone one three.
unfoldable pub utf8_length : JsString → ℕ
utf8_length [] = 0
utf8_length (x ∷ []) = if ltb x 128 then 1 else if ltb x 2048 then 2 else 3
utf8_length (x ∷ y ∷ s) =
    let pair = utf8_length s in
    let one = utf8_length (y ∷ s) in
    if between 55296 56319 x && between 56320 57343 y
    then 4 + pair
    else (if ltb x 128 then 1 else if ltb x 2048 then 2 else 3) + one

unfoldable pub fits_utf8_bytes : JsString → ℕ → Bool
fits_utf8_bytes value max_bytes = leb (length value) max_bytes && leb (utf8_length value) max_bytes

abbrev pub and_then {ℓ κ} : {A : Type ℓ} {B : Type κ} → Option A → (A → Option B) → Option B
and_then none f = none
and_then (some a) f = f a

abbrev pub when {ℓ} : {A : Type ℓ} → Bool → A → Option A
when b a = if b then some a else none

-- `typeof v === "string"`
abbrev pub text_of : Option Json → Option JsString
text_of (some (str s)) = some s
text_of _ = none

abbrev bool_of : Option Json → Option Bool
bool_of (some (bool b)) = some b
bool_of _ = none

-- A value that is missing or null, or a string.
abbrev optional_text : Option Json → Option (Option JsString)
optional_text none = some none
optional_text (some null) = some none
optional_text (some (str s)) = some (some s)
optional_text _ = none

-- A value that is missing or null, or an unsigned short.
abbrev optional_index : Option Json → Option (Option ℕ)
optional_index none = some none
optional_index (some null) = some none
optional_index (some (nat n)) = when (leb n 65535) (some n)
optional_index _ = none

-- A value that is missing, or a string.
abbrev reason_of : Option Json → Option (Option JsString)
reason_of none = some none
reason_of (some (str s)) = some (some s)
reason_of _ = none

abbrev media_from : Option Bool → Option Bool → Option CallMediaKind
media_from (some a) (some v) = some (record { audio = a; video = v })
media_from _ _ = none

-- `isCallMediaKind`, with what it is read as
abbrev pub media_of : Option Json → Option CallMediaKind
media_of (some (obj fs)) =
    media_from (bool_of (prop (js "audio") fs)) (bool_of (prop (js "video") fs))
media_of _ = none

abbrev candidate_from :
    Option JsString
    → Option (Option JsString)
    → Option (Option ℕ)
    → Option (Option JsString)
    → Option CallIceCandidate
candidate_from (some c) (some mid) (some index) (some fragment) = some (record {
  candidate = c;
  sdp_mid = mid;
  sdp_m_line_index = index;
  username_fragment = fragment;
})
candidate_from _ _ _ _ = none

-- `isCallIceCandidate`, with what it is read as
abbrev pub candidate_of : Json → Option CallIceCandidate
candidate_of (obj fs) =
    candidate_from (text_of (prop (js "candidate") fs)) (optional_text (prop (js "sdpMid") fs))
      (optional_index (prop (js "sdpMLineIndex") fs))
      (optional_text (prop (js "usernameFragment") fs))
candidate_of _ = none

unfoldable pub candidates_of : List Json → Option (List CallIceCandidate)
candidates_of [] = some []
candidates_of (v ∷ vs) = both (candidate_of v) (candidates_of vs)
  where
    both : Option CallIceCandidate → Option (List CallIceCandidate) → Option (List CallIceCandidate)
    both (some c) (some cs) = some (c ∷ cs)
    both _ _ = none

abbrev array_of : Option Json → Option (List Json)
array_of (some (arr vs)) = some (items vs)
array_of _ = none

abbrev pub fitting : Option JsString → Option JsString
fitting none = none
fitting (some sdp) = when (fits_utf8_bytes sdp max_rtc_sdp_bytes) sdp

abbrev pub nonempty : Option JsString → Option JsString
nonempty (some (x ∷ s)) = some (x ∷ s)
nonempty _ = none

-- The `switch` on the type, for a call.
unfoldable pub frame_of_type : JsString → JsString → Fields → Option ClientToHubFrame
frame_of_type t call_id input =
    if str_eq t (js "invite")
    then and_then (nonempty (text_of (prop (js "to") input))) (λ to.
      and_then (media_of (prop (js "media") input))
        (λ media. some (ClientToHubFrame.invite call_id to media)))
    else if str_eq t (js "offer")
    then and_then (fitting (text_of (prop (js "sdp") input)))
        (λ sdp. some (ClientToHubFrame.offer call_id sdp))
    else if str_eq t (js "answer")
    then and_then (fitting (text_of (prop (js "sdp") input)))
        (λ sdp. some (ClientToHubFrame.answer call_id sdp))
    else if str_eq t (js "candidates")
    then and_then (array_of (prop (js "candidates") input))
        (λ vs. and_then (candidates_of vs) (λ cs. some (ClientToHubFrame.candidates call_id cs)))
    else if str_eq t (js "accept")
    then some (ClientToHubFrame.accept call_id)
    else if str_eq t (js "resume")
    then some (ClientToHubFrame.resume call_id)
    else if str_eq t (js "reject")
    then and_then (reason_of (prop (js "reason") input))
        (λ reason. some (ClientToHubFrame.reject call_id reason))
    else if str_eq t (js "hangup")
    then and_then (reason_of (prop (js "reason") input))
        (λ reason. some (ClientToHubFrame.hangup call_id reason))
    else none

abbrev pub checked_id : Option JsString → Option JsString
checked_id none = none
checked_id (some id) = when (between 1 200 (length id)) id

unfoldable pub frame_of_fields : Fields → Option ClientToHubFrame
frame_of_fields input = typed (text_of (prop (js "t") input))
  where
    of_call : Option JsString → Option ClientToHubFrame
    of_call none = none
    of_call (some t) =
        and_then (checked_id (text_of (prop (js "callId") input)))
          (λ call_id. frame_of_type t call_id input)

    typed : Option JsString → Option ClientToHubFrame
    typed none = none
    typed (some t) =
        if str_eq t (js "hello")
        then some ClientToHubFrame.hello
        else if str_eq t (js "ping")
        then some ClientToHubFrame.ping
        else of_call (some t)

-- A frame is a plain object.
abbrev pub frame_of_json : Option Json → Option ClientToHubFrame
frame_of_json (some (obj input)) = frame_of_fields input
frame_of_json _ = none

-- `parse_json` is `JSON.parse`, `none` where it throws.
unfoldable pub parse_client_to_hub_frame :
    (JsString → Option Json) → JsString → Option ClientToHubFrame
parse_client_to_hub_frame parse_json message =
    if fits_utf8_bytes message max_rtc_client_frame_bytes
    then frame_of_json (parse_json message)
    else none

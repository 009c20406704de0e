-- ===== src/Calls/Frames/Checked.antt =====
-- What `parseClientToHubFrame` of packages/api/src/types/call.ts lets through.
use yurucommu_core.Base.{
  ℕ, ◌≤◌, ◌≡◌, refl, Bool, true, Option, none, some, List, [], ◌∷◌, JsString, js, str_eq, leb,
  between, length, All, arith,
}
use yurucommu_core.Base.Json.{
  Json, null, bool, nat, str, arr, obj, Fields, field, items, prop, of_list,
}
use yurucommu_core.Calls.Wire.{
  CallIceCandidate, ClientToHubFrame, hello, invite, offer, answer, candidates, accept, reject,
  hangup, resume, ping,
}
use yurucommu_core.Calls.Frames.{
  max_rtc_sdp_bytes, fits_utf8_bytes, candidate_of, candidates_of, frame_of_type, frame_of_fields,
}

abbrev pub IsId : JsString → Type 0
IsId id = between 1 200 (length id) ≡ true

abbrev pub is_index : Option ℕ → Bool
is_index none = true
is_index (some n) = leb n 65535

abbrev pub IsCandidate : CallIceCandidate → Type 0
IsCandidate c = is_index c.sdp_m_line_index ≡ true

-- A frame within the limits of the hub.
abbrev pub IsFrame : ClientToHubFrame → Type 0
IsFrame hello = Unit
IsFrame (invite id to media) = IsId id × (1 ≤ length to)
IsFrame (offer id sdp) = IsId id × (fits_utf8_bytes sdp max_rtc_sdp_bytes ≡ true)
IsFrame (answer id sdp) = IsId id × (fits_utf8_bytes sdp max_rtc_sdp_bytes ≡ true)
IsFrame (candidates id cs) = IsId id × All IsCandidate cs
IsFrame (accept id) = IsId id
IsFrame (reject id reason) = IsId id
IsFrame (hangup id reason) = IsId id
IsFrame (resume id) = IsId id
IsFrame ping = Unit

-- The object that a browser sends for a frame.
abbrev optional : JsString → Option JsString → Fields → Fields
optional name none fs = fs
optional name (some s) fs = field name (str s) fs

abbrev index_json : Option ℕ → Json
index_json none = null
index_json (some n) = nat n

abbrev text_json : Option JsString → Json
text_json none = null
text_json (some s) = str s

abbrev candidate_json : CallIceCandidate → Json
candidate_json c = obj (
    field (js "candidate") (str c.candidate) (
      field (js "sdpMid") (text_json c.sdp_mid) (
        field (js "sdpMLineIndex") (index_json c.sdp_m_line_index)
          (field (js "usernameFragment") (text_json c.username_fragment) Fields.end))))

abbrev candidate_jsons : List CallIceCandidate → List Json
candidate_jsons [] = []
candidate_jsons (c ∷ cs) = candidate_json c ∷ candidate_jsons cs

abbrev of_call : JsString → JsString → Fields → Fields
of_call t id fs = field (js "t") (str t) (field (js "callId") (str id) fs)

abbrev pub frame_fields : ClientToHubFrame → Fields
frame_fields hello = field (js "t") (str (js "hello")) Fields.end
frame_fields (invite id to media) = of_call (js "invite") id (
    field (js "to") (str to) (
      field (js "media")
        (obj (
          field (js "audio") (bool media.audio) (field (js "video") (bool media.video) Fields.end)))
        Fields.end))
frame_fields (offer id sdp) = of_call (js "offer") id (field (js "sdp") (str sdp) Fields.end)
frame_fields (answer id sdp) = of_call (js "answer") id (field (js "sdp") (str sdp) Fields.end)
frame_fields (candidates id cs) =
    of_call (js "candidates") id
      (field (js "candidates") (arr (of_list (candidate_jsons cs))) Fields.end)
frame_fields (accept id) = of_call (js "accept") id Fields.end
frame_fields (reject id reason) =
    of_call (js "reject") id (optional (js "reason") reason Fields.end)
frame_fields (hangup id reason) =
    of_call (js "hangup") id (optional (js "reason") reason Fields.end)
frame_fields (resume id) = of_call (js "resume") id Fields.end
frame_fields ping = field (js "t") (str (js "ping")) Fields.end

items-of_list : (vs : List Json) → items (of_list vs) ≡ vs
items-of_list [] = refl
items-of_list (v ∷ vs) = rw (items-of_list vs) refl

candidate_round : (c : CallIceCandidate) → IsCandidate c → candidate_of (candidate_json c) ≡ some c
unfolding prop str_eq
candidate_round c h = ground arith

candidates_round :
    (cs : List CallIceCandidate) → All IsCandidate cs → candidates_of (candidate_jsons cs) ≡ some cs
unfolding candidates_of
candidates_round [] h = refl
candidates_round (c ∷ cs) (p, h) = rw (candidate_round c p, candidates_round cs h) refl

-- Every frame within the limits is read back from the object that spells it.
pub frame_of_fields-frame_fields :
    (frame : ClientToHubFrame) → IsFrame frame → frame_of_fields (frame_fields frame) ≡ some frame
unfolding frame_of_fields frame_of_type prop str_eq
frame_of_fields-frame_fields hello h = refl
frame_of_fields-frame_fields (invite id [] media) h = absurd (omega (arith, h))
frame_of_fields-frame_fields (invite id (x ∷ to) media) (h, k) = rw h refl
frame_of_fields-frame_fields (offer id sdp) (h, k) = rw (h, k) refl
frame_of_fields-frame_fields (answer id sdp) (h, k) = rw (h, k) refl
frame_of_fields-frame_fields (candidates id cs) (h, k) =
    rw (h, items-of_list, candidates_round cs k) refl
frame_of_fields-frame_fields (accept id) h = rw h refl
frame_of_fields-frame_fields (reject id none) h = rw h refl
frame_of_fields-frame_fields (reject id (some r)) h = rw h refl
frame_of_fields-frame_fields (hangup id none) h = rw h refl
frame_of_fields-frame_fields (hangup id (some r)) h = rw h refl
frame_of_fields-frame_fields (resume id) h = rw h refl
frame_of_fields-frame_fields ping h = refl

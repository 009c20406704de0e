-- ===== src/Calls/Frames/Limits.antt =====
-- Untrusted messages through `parseClientToHubFrame` of packages/api/src/types/call.ts.
use yurucommu_core.Base.{
  ◌≤◌, ◌≡◌, refl, true, Option, none, some, List, [], ◌∷◌, JsString, js, str_eq, if◌then◌else◌,
  length, All, Bool-cases, Option-cases, inl, inr, arith,
}
use mathlib.Core.Option.{some-injective}
use yurucommu_core.Base.Json.{
  Json, null, bool, nat, negative, fraction, str, arr, obj, Fields, prop,
}
use yurucommu_core.Calls.Wire.{CallIceCandidate, ClientToHubFrame}
use yurucommu_core.Calls.Frames.{
  max_rtc_sdp_bytes, max_rtc_client_frame_bytes, fits_utf8_bytes, and_then, text_of, nonempty,
  fitting, media_of, array_of, reason_of, candidate_of, candidates_of, checked_id, frame_of_type,
  frame_of_fields, frame_of_json, parse_client_to_hub_frame,
}
use yurucommu_core.Calls.Frames.Checked.{IsFrame, IsId, IsCandidate}

and_then-some {ℓ κ} :
    {A : Type ℓ} {B : Type κ} (o : Option A) (f : A → Option B) (b : B)
    → and_then o f ≡ some b
    → (a : A) × (o ≡ some a) × (f a ≡ some b)
and_then-some none f b h = cc
and_then-some (some a) f b h = (a, refl, h)

length-nonempty : (o : Option JsString) (s : JsString) → nonempty o ≡ some s → 1 ≤ length s
length-nonempty none s h = cc
length-nonempty (some []) s h = cc
length-nonempty (some (x ∷ t)) s h = ground arith

fitting_fits :
    (o : Option JsString) (s : JsString)
    → fitting o ≡ some s
    → fits_utf8_bytes s max_rtc_sdp_bytes ≡ true
fitting_fits none s h = cc
fitting_fits (some t) s h = ground arith

checked_id-IsId : (o : Option JsString) (s : JsString) → checked_id o ≡ some s → IsId s
checked_id-IsId none s h = cc
checked_id-IsId (some t) s h = ground arith

candidate_of-IsCandidate :
    (v : Json) (c : CallIceCandidate) → candidate_of v ≡ some c → IsCandidate c
candidate_of-IsCandidate (obj fs) c h = ground arith
candidate_of-IsCandidate null c h = cc
candidate_of-IsCandidate (bool b) c h = cc
candidate_of-IsCandidate (nat n) c h = cc
candidate_of-IsCandidate (negative n) c h = cc
candidate_of-IsCandidate fraction c h = cc
candidate_of-IsCandidate (str s) c h = cc
candidate_of-IsCandidate (arr vs) c h = cc

candidates_of-All :
    (vs : List Json) (cs : List CallIceCandidate) → candidates_of vs ≡ some cs → All IsCandidate cs
unfolding candidates_of
candidates_of-All [] cs h = rw (← some-injective _ _ h) tt
candidates_of-All (v ∷ vs) cs h = elim (Option-cases (candidate_of v)) [
  | inl gone ↦ let x = rw gone at h in cc
  | inr (c, e) ↦ elim (Option-cases (candidates_of vs)) [
    | inl gone ↦ let x = rw (e, gone) at h in cc
    | inr (more, f) ↦
        rw (← some-injective _ _ (rw (e, f) at h))
          (candidate_of-IsCandidate v c e, candidates_of-All vs more f)
  ]
]

frame_of_type-IsFrame :
    (t id : JsString) (input : Fields) (frame : ClientToHubFrame)
    → IsId id
    → frame_of_type t id input ≡ some frame
    → IsFrame frame
unfolding frame_of_type
frame_of_type-IsFrame t id input frame i h = elim (Bool-cases (str_eq t (js "invite"))) [
  | inl e ↦
      let a =
        and_then-some (nonempty (text_of (prop (js "to") input)))
          (λ to.
            and_then (media_of (prop (js "media") input))
              (λ media. some (ClientToHubFrame.invite id to media)))
          frame (rw e at h) in
      let b =
        and_then-some (media_of (prop (js "media") input))
          (λ media. some (ClientToHubFrame.invite id a.0 media)) frame a.2 in
      let q : ClientToHubFrame.invite id a.0 b.0 ≡ frame = some-injective _ _ b.2 in
      rw (← q) (i, length-nonempty (text_of (prop (js "to") input)) a.0 a.1)
  | inr e1 ↦ elim (Bool-cases (str_eq t (js "offer"))) [
    | inl e ↦
        let a =
          and_then-some (fitting (text_of (prop (js "sdp") input)))
            (λ sdp. some (ClientToHubFrame.offer id sdp)) frame (rw (e1, e) at h) in
        let q : ClientToHubFrame.offer id a.0 ≡ frame = some-injective _ _ a.2 in
        rw (← q) (i, fitting_fits (text_of (prop (js "sdp") input)) a.0 a.1)
    | inr e2 ↦ elim (Bool-cases (str_eq t (js "answer"))) [
      | inl e ↦
          let a =
            and_then-some (fitting (text_of (prop (js "sdp") input)))
              (λ sdp. some (ClientToHubFrame.answer id sdp)) frame (rw (e1, e2, e) at h) in
          let q : ClientToHubFrame.answer id a.0 ≡ frame = some-injective _ _ a.2 in
          rw (← q) (i, fitting_fits (text_of (prop (js "sdp") input)) a.0 a.1)
      | inr e3 ↦ elim (Bool-cases (str_eq t (js "candidates"))) [
        | inl e ↦
            let a =
              and_then-some (array_of (prop (js "candidates") input))
                (λ vs. and_then (candidates_of vs) (λ cs. some (ClientToHubFrame.candidates id cs)))
                frame (rw (e1, e2, e3, e) at h) in
            let b =
              and_then-some (candidates_of a.0) (λ cs. some (ClientToHubFrame.candidates id cs))
                frame a.2 in
            let q : ClientToHubFrame.candidates id b.0 ≡ frame = some-injective _ _ b.2 in
            rw (← q) (i, candidates_of-All a.0 b.0 b.1)
        | inr e4 ↦ rest (rw (e1, e2, e3, e4) at h)
      ]
    ]
  ]
]
  where
    rest :
        (if str_eq t (js "accept")
            then some (ClientToHubFrame.accept id)
            else if str_eq t (js "resume")
            then some (ClientToHubFrame.resume id)
            else if str_eq t (js "reject")
            then and_then
                (reason_of (prop (js "reason") input))
                (λ reason. some (ClientToHubFrame.reject id reason))
            else if str_eq t (js "hangup")
            then and_then
                (reason_of (prop (js "reason") input))
                (λ reason. some (ClientToHubFrame.hangup id reason))
            else none)
          ≡ some frame
        → IsFrame frame
    rest k = elim (Bool-cases (str_eq t (js "accept"))) [
      | inl e ↦
          let q : ClientToHubFrame.accept id ≡ frame = some-injective _ _ (rw e at k) in rw (← q) i
      | inr e1 ↦ elim (Bool-cases (str_eq t (js "resume"))) [
        | inl e ↦
            let q : ClientToHubFrame.resume id ≡ frame = some-injective _ _ (rw (e1, e) at k) in
            rw (← q) i
        | inr e2 ↦ elim (Bool-cases (str_eq t (js "reject"))) [
          | inl e ↦
              let a =
                and_then-some (reason_of (prop (js "reason") input))
                  (λ reason. some (ClientToHubFrame.reject id reason)) frame
                  (rw (e1, e2, e) at k) in
              let q : ClientToHubFrame.reject id a.0 ≡ frame = some-injective _ _ a.2 in rw (← q) i
          | inr e3 ↦ elim (Bool-cases (str_eq t (js "hangup"))) [
            | inl e ↦
                let a =
                  and_then-some (reason_of (prop (js "reason") input))
                    (λ reason. some (ClientToHubFrame.hangup id reason)) frame
                    (rw (e1, e2, e3, e) at k) in
                let q : ClientToHubFrame.hangup id a.0 ≡ frame = some-injective _ _ a.2 in
                rw (← q) i
            | inr e4 ↦ let x = rw (e1, e2, e3, e4) at k in cc
          ]
        ]
      ]
    ]

frame_of_fields-IsFrame :
    (input : Fields) (frame : ClientToHubFrame) → frame_of_fields input ≡ some frame → IsFrame frame
unfolding frame_of_fields
frame_of_fields-IsFrame input frame k = elim (Option-cases (text_of (prop (js "t") input))) [
  | inl gone ↦ let x = rw gone at k in cc
  | inr (t, e) ↦ elim (Bool-cases (str_eq t (js "hello"))) [
    | inl is ↦
        let q : ClientToHubFrame.hello ≡ frame = some-injective _ _ (rw (e, is) at k) in rw (← q) tt
    | inr e1 ↦ elim (Bool-cases (str_eq t (js "ping"))) [
      | inl is ↦
          let q : ClientToHubFrame.ping ≡ frame = some-injective _ _ (rw (e, e1, is) at k) in
          rw (← q) tt
      | inr e2 ↦
          let a =
            and_then-some (checked_id (text_of (prop (js "callId") input)))
              (λ id. frame_of_type t id input) frame (rw (e, e1, e2) at k) in
          frame_of_type-IsFrame t a.0 input frame
            (checked_id-IsId (text_of (prop (js "callId") input)) a.0 a.1) a.2
    ]
  ]
]

frame_of_json-IsFrame :
    (v : Json) (frame : ClientToHubFrame) → frame_of_json (some v) ≡ some frame → IsFrame frame
frame_of_json-IsFrame (obj input) frame h = frame_of_fields-IsFrame input frame h
frame_of_json-IsFrame null frame h = cc
frame_of_json-IsFrame (bool b) frame h = cc
frame_of_json-IsFrame (nat n) frame h = cc
frame_of_json-IsFrame (negative n) frame h = cc
frame_of_json-IsFrame fraction frame h = cc
frame_of_json-IsFrame (str s) frame h = cc
frame_of_json-IsFrame (arr vs) frame h = cc

-- Whatever a browser sends, a frame that is let through is within the limits of the hub: its id has
-- 1 to 200 units, an SDP at most a hundred thousand bytes, an invited actor is named, and a
-- candidate's line index is an unsigned short.
pub parse_client_to_hub_frame-IsFrame :
    (parse_json : JsString → Option Json) (message : JsString) (frame : ClientToHubFrame)
    → parse_client_to_hub_frame parse_json message ≡ some frame
    → IsFrame frame
unfolding parse_client_to_hub_frame
parse_client_to_hub_frame-IsFrame parse_json message frame h =
    elim (Bool-cases (fits_utf8_bytes message max_rtc_client_frame_bytes)) [
      | inr long ↦ let x = rw long at h in cc
      | inl short ↦ elim (Option-cases (parse_json message)) [
        | inl gone ↦ let x = rw (short, gone) at h in cc
        | inr (v, e) ↦ frame_of_json-IsFrame v frame (rw (short, e) at h)
      ]
    ]

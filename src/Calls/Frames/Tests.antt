-- ===== src/Calls/Frames/Tests.antt =====
-- Frames of a browser, decoded.
use yurucommu_core.Base.{refl, Option, none, some, [], ◌∷◌, JsString, js, str_eq}
use yurucommu_core.Base.Json.{Json, obj, prop}
use yurucommu_core.Calls.Wire.{ClientToHubFrame, candidates, hangup}
use yurucommu_core.Calls.Frames.{
  frame_of_fields, frame_of_type, parse_client_to_hub_frame, fits_utf8_bytes, utf8_length,
}
use yurucommu_core.Calls.Frames.Checked.{IsFrame, frame_fields}
use yurucommu_core.Calls.Frames.Limits.{parse_client_to_hub_frame-IsFrame}

abbrev one_candidate : ClientToHubFrame
one_candidate = candidates (js "c1") (
    record {
      candidate = js "candidate:1";
      sdp_mid = some (js "0");
      sdp_m_line_index = some 0;
      username_fragment = none;
    }
    ∷ [])

abbrev parses_hangup : JsString → Option Json
parses_hangup _ = some (obj (frame_fields (hangup (js "c1") none)))

parse_client_to_hub_frame-IsFrame_example : IsFrame (hangup (js "c1") none)
unfolding parse_client_to_hub_frame frame_of_fields frame_of_type fits_utf8_bytes utf8_length prop
    str_eq
parse_client_to_hub_frame-IsFrame_example =
    parse_client_to_hub_frame-IsFrame parses_hangup (js "{}") (hangup (js "c1") none) refl

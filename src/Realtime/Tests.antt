-- ===== src/Realtime/Tests.antt =====
-- The stream at concrete inputs.
use yurucommu_core.Base.{
  all, Option, ◌+◌, str_eq, ℕ, true, false, some, none, List, [], ◌∷◌, ◌++◌, map, JsString, js, ◌≡◌,
  ◌≢◌, ◌⊎◌, refl, arith, length, if◌then◌else◌, leb, ltb,
}
use yurucommu_core.Base.Json.{Json, end, field, obj, str, nat, prop}
use yurucommu_core.Realtime.Body.{
  decoded, too_large, concat, max_realtime_event_bytes, read_event_body, read_event_body-concat,
}
use yurucommu_core.Realtime.Stream.{
  RealtimeEvent, unread, talk_read, event, resync, hello_ok, Retains, Emitted, handle_emit, greet,
  event_buffer_size, realtime_event_input, event_type_of,
}
use yurucommu_core.Realtime.Stream.Replay.{events_from, handle_emit-Retains}
use yurucommu_core.Realtime.Storage.{DoStorage, do_repository}
use yurucommu_core.Realtime.Storage.Laws.{append-IsRepository}
use yurucommu_core.Realtime.Storage.Missed.{Input, numbered, append_all, greet-missed}

abbrev digest : JsString → JsString
digest s = s

abbrev chunks : List (List ℕ)
chunks = (104 ∷ 105 ∷ []) ∷ (33 ∷ []) ∷ []

-- A decoder of ASCII.
abbrev ascii : List ℕ → Option JsString
ascii bytes = if all (λ b. ltb b 128) bytes then some bytes else none

read_event_body-concat_example : read_event_body ascii (some 3) (some chunks) ≡ (
    if ltb max_realtime_event_bytes (length (concat chunks))
    then too_large
    else decoded ascii (concat chunks))
read_event_body-concat_example = read_event_body-concat ascii (some 3) chunks refl

abbrev empty_storage : DoStorage
empty_storage = record { seq = none; events = []; tickets = [] }

abbrev counted : Json
counted = obj (
    field (js "type") (str (js "unread"))
      (field (js "data") (obj (field (js "count") (nat 2) end)) end))

abbrev emitted : Emitted DoStorage
emitted =
    handle_emit DoStorage (do_repository digest 0 (js "t")) true false (some counted) (4 ∷ 5 ∷ [])
      empty_storage

handle_emit-Retains_example :
    ((emitted.status ≢ 200) × (emitted.sends ≡ []) × (emitted.store ≡ empty_storage))
    ⊎ ((e : RealtimeEvent) × (emitted.status ≡ 200)
        × (e.id ≡ 1)
        × (emitted.sends ≡ map (λ ws. (ws, event e)) (4 ∷ 5 ∷ []))
        × Retains DoStorage
            (do_repository digest 0 (js "t"))
            event_buffer_size
            emitted.store
            (e ∷ []))
handle_emit-Retains_example =
    handle_emit-Retains DoStorage (do_repository digest 0 (js "t")) true false (some counted)
      (4 ∷ 5 ∷ []) empty_storage [] (append-IsRepository digest 0 (js "t"))
      (refl, λ i below near. ground arith)

emit_taken : emitted.status ≡ 200
unfolding handle_emit realtime_event_input event_type_of prop str_eq
emit_taken = refl

abbrev inputs : List Input
inputs = (unread, end) ∷ (talk_read, end) ∷ (unread, end) ∷ []

greet-missed_example :
    greet DoStorage
      (do_repository digest 0 (js "t"))
      7
      (some 1)
      (append_all (numbered 0 inputs) empty_storage)
    ≡ (if leb (length (numbered 0 inputs)) (1 + event_buffer_size)
        then events_from DoStorage (do_repository digest 0 (js "t")) 7 1 (numbered 0 inputs)
        else (7, resync) ∷ [])
      ++ (7, hello_ok (length (numbered 0 inputs))) ∷ []
greet-missed_example = greet-missed digest 0 (js "t") inputs 7 1

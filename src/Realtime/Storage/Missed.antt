-- ===== src/Realtime/Storage/Missed.antt =====
-- A client that comes back to the stream of a Durable Object.
use yurucommu_core.Base.{
  ℕ, suc, ◌+◌, none, some, List, [], ◌∷◌, ◌++◌, subst, JsString, ◌≡◌, refl, arith, if◌then◌else◌,
  leb, length, append_assoc, append-nil, length-append,
}
use yurucommu_core.Base.Json.{Fields}
use yurucommu_core.Realtime.Stream.{
  EventType, RealtimeEvent, resync, hello_ok, Retains, greet, event_buffer_size,
}
use yurucommu_core.Realtime.Stream.Replay.{events_from, greet-replays}
use yurucommu_core.Realtime.Storage.{DoStorage, append, do_repository}
use yurucommu_core.Realtime.Storage.Laws.{append-IsRepository}

abbrev pub Input : Type 0
Input = EventType × Fields

-- The events that inputs become after `n` others.
unfoldable pub numbered : ℕ → List Input → List RealtimeEvent
numbered n [] = []
numbered n ((t, fields) ∷ inputs) =
    record { id = suc n; type_ = t; data_ = fields } ∷ numbered (suc n) inputs

unfoldable pub append_all : List RealtimeEvent → DoStorage → DoStorage
append_all [] s = s
append_all (e ∷ events) s = append_all events (append e event_buffer_size s)

module _ (sha256_hex : JsString → JsString) (now : ℕ) (drawn : JsString) where
  append_all-Retains :
      (inputs : List Input) (s : DoStorage) (log : List RealtimeEvent)
      → Retains DoStorage (do_repository sha256_hex now drawn) event_buffer_size s log
      → Retains DoStorage
          (do_repository sha256_hex now drawn)
          event_buffer_size
          (append_all (numbered (length log) inputs) s)
          (log ++ numbered (length log) inputs)
  unfolding append_all numbered
  append_all-Retains [] s log h = rw (append-nil log) h
  append_all-Retains ((t, fields) ∷ inputs) s log h =
      subst
        (λ (l : List RealtimeEvent).
          Retains DoStorage (do_repository sha256_hex now drawn) event_buffer_size
            (append_all (numbered (suc (length log)) inputs) (append e event_buffer_size s)) l)
        (append_assoc log (e ∷ []) (numbered (suc (length log)) inputs))
        (subst
          (λ (n : ℕ).
            Retains DoStorage (do_repository sha256_hex now drawn) event_buffer_size
              (append_all (numbered n inputs) (append e event_buffer_size s))
              ((log ++ e ∷ []) ++ numbered n inputs))
          longer
          (append_all-Retains inputs (append e event_buffer_size s) (log ++ e ∷ []) (
            append-IsRepository sha256_hex now drawn event_buffer_size s log e (omega arith) refl
              h)))
    where
      e : RealtimeEvent
      e = record { id = suc (length log); type_ = t; data_ = fields }

      longer : length (log ++ e ∷ []) ≡ suc (length log)
      longer = omega (arith, length-append log (e ∷ []))

  -- Whatever events were emitted into an empty storage, the greeting of a client that has seen the
  -- first `last` of them is answered with all later ones, once and in order, if they are at most two
  -- hundred, and else with the request to read all again; then with the number of the last event.
  pub greet-missed :
      (inputs : List Input) (ws last : ℕ)
      → let log = numbered 0 inputs in
        greet DoStorage
          (do_repository sha256_hex now drawn)
          ws
          (some last)
          (append_all log (record { seq = none; events = []; tickets = [] }))
        ≡ (if leb (length log) (last + event_buffer_size)
            then events_from DoStorage (do_repository sha256_hex now drawn) ws last log
            else (ws, resync) ∷ [])
          ++ (ws, hello_ok (length log)) ∷ []
  greet-missed inputs ws last =
      greet-replays DoStorage (do_repository sha256_hex now drawn) ws last _ (numbered 0 inputs) (
        append_all-Retains inputs (record { seq = none; events = []; tickets = [] }) []
          (refl, λ i below near. ground arith))

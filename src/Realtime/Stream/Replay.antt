-- ===== src/Realtime/Stream/Replay.antt =====
-- What a client that comes back is sent, and what an emit does.
use yurucommu_core.Base.{
  ℕ, zero, suc, ◌+◌, ◌-◌, ◌≤◌, ◌<◌, Bool, Option, none, some, List, [], ◌∷◌, ◌++◌, map, ◌≡◌, ◌≢◌,
  ◌⊎◌, refl, inl, inr, arith, if◌then◌else◌, ltb, leb, length, drop, get_elem?, not, ◌&&◌,
  Bool-cases, Option-cases,
}
use yurucommu_core.Base.Json.{Json}
use yurucommu_core.Realtime.Stream.{
  RealtimeEvent, event, resync, hello_ok, Repository, Retains, IsRepository, Sends, replay, greet,
  handle_emit, event_buffer_size, realtime_event_input,
}

drop-get :
    (i : ℕ) (log : List RealtimeEvent)
    → i < length log
    → (e : RealtimeEvent) × (get_elem? log i ≡ some e) × (drop i log ≡ e ∷ drop (suc i) log)
drop-get i [] h = ground arith
drop-get zero (e ∷ log) h = (e, refl, refl)
drop-get (suc i) (e ∷ log) h = drop-get i log (omega arith)

drop-all : (i : ℕ) (log : List RealtimeEvent) → length log ≤ i → drop i log ≡ []
drop-all zero [] h = refl
drop-all (suc i) [] h = refl
drop-all zero (e ∷ log) h = ground arith
drop-all (suc i) (e ∷ log) h = drop-all i log (omega arith)

module _ (S : Type 0) (repository : Repository S) where
  -- The events from a number on, sent to one socket.
  abbrev pub events_from : ℕ → ℕ → List RealtimeEvent → Sends
  events_from ws last log = map (λ e. (ws, event e)) (drop last log)

  replay-events :
      (count ws last : ℕ) (store : S) (log : List RealtimeEvent)
      → Retains S repository event_buffer_size store log
      → last + count ≡ length log
      → length log ≤ last + event_buffer_size
      → replay S repository count ws (suc last) store ≡ events_from ws last log
  unfolding replay
  replay-events zero ws last store log h e near = rw (drop-all last log (omega arith)) refl
  replay-events (suc count) ws last store log h e near =
      let (found, at_last, rest) = drop-get last log (omega arith) in
      let read = h.1 last (omega arith) near in
      let more = replay-events count ws (suc last) store log h (omega arith) (omega arith) in
      rw (read, at_last, rest, more) refl

  -- The greeting of a client that has seen the events up to `last`, in a store that retains the last
  -- two hundred of a log: all later events once and in order, if there are at most two hundred, and
  -- else the request to read all again; then, in every case, the number of the last event.
  pub greet-replays :
      (ws last : ℕ) (store : S) (log : List RealtimeEvent)
      → Retains S repository event_buffer_size store log
      → greet S repository ws (some last) store
        ≡ (if leb (length log) (last + event_buffer_size)
            then events_from ws last log
            else (ws, resync) ∷ [])
          ++ (ws, hello_ok (length log)) ∷ []
  unfolding greet
  greet-replays ws last store log h = elim (Bool-cases (ltb last (length log))) [
    | inr seen ↦ let nothing = drop-all last log (ground arith) in ground (arith, h.0, nothing)
    | inl behind ↦ elim (Bool-cases (leb (length log) (last + event_buffer_size))) [
      | inl near ↦
          let sent =
            replay-events (length log - last) ws last store log h (ground arith) (ground arith) in
          ground (arith, h.0, sent)
      | inr far ↦ ground (arith, h.0)
    ]
  ]

  -- Every way in which an emit is answered.
  emit-cases :
      (is_post is_large : Bool) (body : Option Json) (sockets : List ℕ) (store : S)
      → let r = handle_emit S repository is_post is_large body sockets store in
        ((r.status ≢ 200) × (r.sends ≡ []) × (r.store ≡ store))
        ⊎ ((e : RealtimeEvent) × (r.status ≡ 200)
            × (e.id ≡ repository.current_seq store + 1)
            × (r.sends ≡ map (λ ws. (ws, event e)) sockets)
            × (r.store ≡ repository.append_event e event_buffer_size store))
  unfolding handle_emit
  emit-cases is_post is_large none sockets store = inl (ground arith)
  emit-cases is_post is_large (some json) sockets store =
      elim (Option-cases (realtime_event_input json)) [
        | inl bad ↦ inl (ground arith)
        | inr ((t, data_), good) ↦ elim (Bool-cases (is_post && not is_large)) [
          | inr refused ↦ inl (ground arith)
          | inl taken ↦
              let e : RealtimeEvent = record {
                id = repository.current_seq store + 1;
                type_ = t;
                data_ = data_;
              } in
              inr (e, ground arith, refl, ground arith, ground arith)
        ]
      ]

  -- An emit that is answered 200 extends the log by one event, the next in number, and sends it to
  -- every socket; one that is refused changes and sends nothing.
  pub handle_emit-Retains :
      (is_post is_large : Bool) (body : Option Json) (sockets : List ℕ) (store : S)
      (log : List RealtimeEvent)
      → IsRepository S repository
      → Retains S repository event_buffer_size store log
      → let r = handle_emit S repository is_post is_large body sockets store in
        ((r.status ≢ 200) × (r.sends ≡ []) × (r.store ≡ store))
        ⊎ ((e : RealtimeEvent) × (r.status ≡ 200)
            × (e.id ≡ suc (length log))
            × (r.sends ≡ map (λ ws. (ws, event e)) sockets)
            × Retains S repository event_buffer_size r.store (log ++ e ∷ []))
  handle_emit-Retains is_post is_large body sockets store log law h =
      elim (emit-cases is_post is_large body sockets store) [
        | inl refused ↦ inl refused
        | inr (e, ok, number, sent, stored) ↦
            let at_end : e.id ≡ suc (length log) = omega (arith, h.0) in
            inr (
              e,
              ok,
              at_end,
              sent,
              rw stored (law event_buffer_size store log e (omega arith) at_end h),
            )
      ]

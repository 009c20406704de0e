-- ===== src/Realtime/Storage/Laws.antt =====
-- The storage of a Durable Object and the law of a repository.
use yurucommu_core.Base.{
  ℕ, zero, suc, ◌+◌, ◌-◌, ◌≤◌, ◌<◌, none, some, List, [], ◌∷◌, ◌++◌, JsString, ◌≡◌, ◌≢◌, ◌⊎◌, ◌∙◌,
  refl, inl, inr, arith, if◌then◌else◌, ltb, ltb→lt, ◌==◌, length, length-append, get_elem?,
  Bool-cases,
}
use yurucommu_core.Realtime.Stream.{RealtimeEvent, IsRepository}
use yurucommu_core.Realtime.Storage.{DoStorage, event_of, without, append, do_repository}

event_of-without :
    (k j : ℕ) (events : List (ℕ × RealtimeEvent))
    → event_of k (without j events) ≡ (if k == j then none else event_of k events)
unfolding event_of without
event_of-without k j [] = ground arith
event_of-without k j ((i, e) ∷ events) = ground (arith, event_of-without k j events)

get-append :
    (i : ℕ) (log : List RealtimeEvent) (e : RealtimeEvent)
    → get_elem? (log ++ e ∷ []) i
      ≡ (if ltb i (length log) then get_elem? log i else if i == length log then some e else none)
get-append zero [] e = refl
get-append (suc i) [] e = ground arith
get-append zero (d ∷ log) e = ground arith
get-append (suc i) (d ∷ log) e = ground (arith, get-append i log e)

append-event_of :
    (k retain : ℕ) (e : RealtimeEvent) (s : DoStorage)
    → 1 ≤ retain
    → k ≢ e.id - retain ⊎ e.id ≤ retain
    → event_of k (append e retain s).events ≡ (if k == e.id then some e else event_of k s.events)
unfolding append event_of
append-event_of k retain e s h j = ground (
  arith,
  event_of-without k e.id s.events,
  event_of-without k (e.id - retain) ((e.id, e) ∷ without e.id s.events),
)

module _ (sha256_hex : JsString → JsString) (now : ℕ) (drawn : JsString) where
  -- Whatever was appended before, the storage keeps the last `retain` events of the log, each under
  -- its number.
  pub append-IsRepository : IsRepository DoStorage (do_repository sha256_hex now drawn)
  unfolding append
  append-IsRepository retain store log e h next (at_head, kept) = (
    omega (arith, length-append log (e ∷ [])),
    λ i below near.
        let n = length-append log (e ∷ []) in
        append-event_of (suc i) retain e store h (ground arith)
        ∙ at_index i (omega arith) (omega arith),
  )
    where
      at_index :
          (i : ℕ)
          → i < suc (length log)
          → suc (length log) ≤ i + retain
          → (if suc i == e.id then some e else event_of (suc i) store.events)
            ≡ get_elem? (log ++ e ∷ []) i
      at_index i below near = elim (Bool-cases (ltb i (length log))) [
        | inl old ↦
            ground (arith, get-append i log e, kept i (ltb→lt i (length log) old) (omega arith))
        | inr new ↦ ground (arith, get-append i log e)
      ]

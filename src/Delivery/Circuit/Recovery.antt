-- ===== src/Delivery/Circuit/Recovery.antt =====
-- The life of one endpoint's row: it opens after five failures in a row, rejects until its window
-- has passed, and closes after three successful probes.
use yurucommu_core.Base.{
  ℕ, ◌+◌, ◌≤◌, ◌<◌, ◌≡◌, ◌≢◌, ◌⊎◌, true, some, List, [], ◌∷◌, arith, is_some, All, length, inl, inr,
  get_or_else,
}
use yurucommu_core.Delivery.Circuit.{
  CircuitRow, closed, open_, half_open, allow, check_row, success_row, failure_row, set_data,
  should_open, consecutive_failure_threshold, half_open_probes, initial_circuit_row,
  open_duration_ms,
}
use yurucommu_core.Delivery.Circuit.Rows.{
  IsRow, written, check_row-IsRow, success_row-IsRow, failure_row-IsRow, initial-IsRow,
}

-- An operation on an endpoint, with the time at which it runs, read and write without a gap.
pub data Event : Type 0 where
  check : ℕ → Event
  success : Event
  failure : ℕ → Event

unfoldable pub react : CircuitRow → Event → CircuitRow
react r (check now) = written (check_row now r).1 r
react r success = set_data (success_row r) r
react r (failure now) = set_data (failure_row now r) r

unfoldable pub run : CircuitRow → List Event → CircuitRow
run r [] = r
run r (e ∷ es) = run (react r e) es

react-IsRow : (r : CircuitRow) (e : Event) → IsRow r → IsRow (react r e)
unfolding react
react-IsRow r (check now) h = check_row-IsRow now r h
react-IsRow r success h = success_row-IsRow r h
react-IsRow r (failure now) h = failure_row-IsRow now r h

run-IsRow_from : (r : CircuitRow) (es : List Event) → IsRow r → IsRow (run r es)
unfolding run
run-IsRow_from r [] h = h
run-IsRow_from r (e ∷ es) h = run-IsRow_from (react r e) es (react-IsRow r e h)

-- Every row that the operations reach from a new one, in any order and at any times, is
-- well formed: an open circuit has a deadline, a closed one is below the failure threshold, and
-- probes are counted only while half open, never up to the number of probes.
pub run-IsRow : (es : List Event) → IsRow (run initial_circuit_row es)
run-IsRow es = run-IsRow_from initial_circuit_row es initial-IsRow

-- failures at the times of a list
abbrev pub failures : List ℕ → List Event
failures [] = []
failures (t ∷ ts) = failure t ∷ failures ts

failure_open : (now : ℕ) (r : CircuitRow) → r.state ≡ open_ → (react r (failure now)).state ≡ open_
unfolding react failure_row set_data
failure_open now r h = ground arith

failure_steps :
    (now : ℕ) (r : CircuitRow)
    → ((react r (failure now)).state ≡ open_)
      ⊎ (((react r (failure now)).state ≡ closed)
          × ((react r (failure now)).consecutive_failures ≡ r.consecutive_failures + 1)
          × (r.consecutive_failures + 1 < consecutive_failure_threshold))
unfolding react failure_row set_data should_open
failure_steps now r = ground arith

stays_open : (r : CircuitRow) (ts : List ℕ) → r.state ≡ open_ → (run r (failures ts)).state ≡ open_
unfolding run
stays_open r [] h = h
stays_open r (t ∷ ts) h = stays_open (react r (failure t)) ts (failure_open t r h)

counting :
    (r : CircuitRow) (t : ℕ) (ts : List ℕ)
    → consecutive_failure_threshold ≤ r.consecutive_failures + length (t ∷ ts)
    → (run r (failures (t ∷ ts))).state ≡ open_
unfolding run
counting r t [] h = elim (failure_steps t r) [ inl o ↦ o | inr (c, n, b) ↦ absurd (omega arith) ]
counting r t (u ∷ us) h = elim (failure_steps t r) [
  | inl o ↦ stays_open (react r (failure t)) (u ∷ us) o
  | inr (c, n, b) ↦ counting (react r (failure t)) u us (omega arith)
]

-- Whatever the row holds, five failures in a row, or more, leave the circuit open.
pub five_failures_open :
    (r : CircuitRow) (ts : List ℕ)
    → consecutive_failure_threshold ≤ length ts
    → (run r (failures ts)).state ≡ open_
five_failures_open r [] h = absurd (omega arith)
five_failures_open r (t ∷ ts) h = counting r t ts (omega arith)

-- The circuit is open at least until `until_ms`.
abbrev pub IsOpenUntil : ℕ → CircuitRow → Type 0
IsOpenUntil until_ms r =
    (r.state ≡ open_) × (is_some r.open_until ≡ true) × (until_ms ≤ get_or_else r.open_until 0)

-- An event inside the five minutes that end at `until_ms`.
abbrev pub Within : ℕ → Event → Type 0
Within until_ms (check now) = now < until_ms
Within until_ms success = Unit {0}
Within until_ms (failure now) = until_ms ≤ now + open_duration_ms

react-IsOpenUntil :
    (until_ms : ℕ) (r : CircuitRow) (e : Event)
    → Within until_ms e
    → IsOpenUntil until_ms r
    → IsOpenUntil until_ms (react r e)
unfolding react check_row success_row failure_row set_data
react-IsOpenUntil until_ms r (check now) w h = ground arith
react-IsOpenUntil until_ms r _ w h = ground arith

run-IsOpenUntil :
    (until_ms : ℕ) (r : CircuitRow) (es : List Event)
    → All (Within until_ms) es
    → IsOpenUntil until_ms r
    → IsOpenUntil until_ms (run r es)
unfolding run
run-IsOpenUntil until_ms r [] w h = h
run-IsOpenUntil until_ms r (e ∷ es) w h =
    run-IsOpenUntil until_ms (react r e) es w.1 (react-IsOpenUntil until_ms r e w.0 h)

check_of_IsOpenUntil :
    (until_ms now : ℕ) (r : CircuitRow)
    → IsOpenUntil until_ms r
    → now < until_ms
    → (check_row now r).0 ≢ allow
unfolding check_row
check_of_IsOpenUntil until_ms now r h w = ground arith

-- A circuit that is open until `until_ms`, after any operations on its row that run one after
-- another, is still open and rejects a delivery that asks before then: any successes, failures that
-- are recorded no earlier than five minutes before `until_ms`, and checks before it. Operations that
-- overlap, where one writes what it computed from the row as it was before another, are not covered.
pub open_rejects :
    (until_ms now : ℕ) (r : CircuitRow) (es : List Event)
    → IsOpenUntil until_ms r
    → All (Within until_ms) es
    → now < until_ms
    → ((run r es).state ≡ open_) × ((check_row now (run r es)).0 ≢ allow)
open_rejects until_ms now r es h w l =
    let k = run-IsOpenUntil until_ms r es w h in
    (k.0, check_of_IsOpenUntil until_ms now (run r es) k l)

check_half_opens :
    (now until_ms : ℕ) (r : CircuitRow)
    → r.state ≡ open_
    → r.open_until ≡ some until_ms
    → until_ms ≤ now
    → ((check_row now r).0 ≡ allow)
      × ((react r (check now)).state ≡ half_open)
      × ((react r (check now)).half_open_probe_attempts ≡ 0)
      × ((react r (check now)).half_open_probe_successes ≡ 0)
unfolding react check_row set_data
check_half_opens now until_ms r o u l = ground arith

probe_counts :
    (r : CircuitRow)
    → r.state ≡ half_open
    → r.half_open_probe_attempts + 1 < half_open_probes
    → ((react r success).state ≡ half_open)
      × ((react r success).half_open_probe_attempts ≡ r.half_open_probe_attempts + 1)
      × ((react r success).half_open_probe_successes ≡ r.half_open_probe_successes + 1)
unfolding react success_row set_data
probe_counts r h l = ground arith

last_probe_closes :
    (r : CircuitRow)
    → r.state ≡ half_open
    → half_open_probes ≤ r.half_open_probe_attempts + 1
    → half_open_probes ≤ r.half_open_probe_successes + 1
    → ((react r success).state ≡ closed) × ((react r success).consecutive_failures ≡ 0)
unfolding react success_row set_data
last_probe_closes r h l k = ground arith

-- An open circuit whose window has passed lets the next delivery through and turns half open; the
-- third success in a row then closes it with no failure counted, and no earlier one does.
pub recovers :
    (now until_ms : ℕ) (r : CircuitRow)
    → r.state ≡ open_
    → r.open_until ≡ some until_ms
    → until_ms ≤ now
    → ((check_row now r).0 ≡ allow)
      × ((run r (check now ∷ success ∷ success ∷ [])).state ≡ half_open)
      × ((run r (check now ∷ success ∷ success ∷ success ∷ [])).state ≡ closed)
      × ((run r (check now ∷ success ∷ success ∷ success ∷ [])).consecutive_failures ≡ 0)
unfolding run
recovers now until_ms r o u l =
    let h = check_half_opens now until_ms r o u l in
    let a = react r (check now) in
    let p = probe_counts a h.1 (omega arith) in
    let b = react a success in
    let q = probe_counts b p.0 (omega arith) in
    let c = last_probe_closes (react b success) q.0 (omega arith) (omega arith) in
    (h.0, q.0, c.0, c.1)

half_open_allows :
    (now : ℕ) (r : CircuitRow)
    → r.state ≡ half_open
    → r.half_open_probe_attempts < half_open_probes
    → (check_row now r).0 ≡ allow
unfolding check_row
half_open_allows now r h l = ground arith

-- However many deliveries a half-open circuit has let through, it lets the next one through too:
-- the probes in flight are never counted, only those that succeeded.
pub half_open_never_defers :
    (es : List Event) (now : ℕ)
    → (run initial_circuit_row es).state ≡ half_open
    → (check_row now (run initial_circuit_row es)).0 ≡ allow
half_open_never_defers es now h =
    half_open_allows now (run initial_circuit_row es) h (run-IsRow es).probes_below

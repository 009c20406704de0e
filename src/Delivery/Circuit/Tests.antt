-- ===== src/Delivery/Circuit/Tests.antt =====
-- Runs of the circuit breaker, and its theorems at concrete inputs.
use yurucommu_core.Base.{
  ℕ, ◌≡◌, ◌≢◌, refl, List, [], ◌∷◌, some, js, arith, lookup, str_eq, if◌then◌else◌,
}
use yurucommu_core.Delivery.Circuit.{
  CircuitRow, Circuits, closed, open_, half_open, allow, check_row, success_row, failure_row,
  should_open, set_data, sum, recent_with_outcome, initial_circuit_row, parse_recent_outcomes,
  serialize_recent_outcomes,
}
use yurucommu_core.Delivery.Circuit.Recovery.{
  Event, check, success, failure, run, react, failures, five_failures_open, open_rejects, recovers,
}
use yurucommu_core.Delivery.Circuit.Tables.{operate, operate-react, seen, row_of}

abbrev storm : List ℕ
storm = 1 ∷ 2 ∷ 3 ∷ 4 ∷ 5 ∷ []

abbrev tripped : CircuitRow
tripped = run initial_circuit_row (failures storm)

storm_opens : (tripped.state ≡ open_) × (tripped.open_until ≡ some 300005)
unfolding run react set_data failure_row should_open recent_with_outcome parse_recent_outcomes
    serialize_recent_outcomes
storm_opens = (refl, refl)

-- Twelve failures in a full window of twenty open the circuit with two in a row.
abbrev mixed : List Event
mixed =
    failure 1
    ∷ failure 1
    ∷ failure 1
    ∷ success
    ∷ failure 1
    ∷ failure 1
    ∷ failure 1
    ∷ success
    ∷ failure 1
    ∷ failure 1
    ∷ success
    ∷ failure 1
    ∷ failure 1
    ∷ success
    ∷ success
    ∷ success
    ∷ success
    ∷ success
    ∷ failure 1
    ∷ []

rate_opens :
    ((run initial_circuit_row mixed).state ≡ closed)
    × ((react (run initial_circuit_row mixed) (failure 2)).state ≡ open_)
unfolding run react set_data failure_row success_row should_open sum recent_with_outcome
    parse_recent_outcomes serialize_recent_outcomes
rate_opens = (refl, refl)

five_failures_open_example : (run initial_circuit_row (failures storm)).state ≡ open_
five_failures_open_example = five_failures_open initial_circuit_row storm (omega arith)

open_rejects_example :
    ((run tripped (success ∷ failure 9 ∷ [])).state ≡ open_)
    × ((check_row 300000 (run tripped (success ∷ failure 9 ∷ []))).0 ≢ allow)
unfolding run react set_data failure_row should_open recent_with_outcome parse_recent_outcomes
    serialize_recent_outcomes
open_rejects_example =
    open_rejects 300005 300000 tripped (success ∷ failure 9 ∷ []) (refl, refl, omega arith)
      (tt, (omega arith, tt)) (omega arith)

recovers_example :
    ((check_row 300005 tripped).0 ≡ allow)
    × ((run tripped (check 300005 ∷ success ∷ success ∷ [])).state ≡ half_open)
    × ((run tripped (check 300005 ∷ success ∷ success ∷ success ∷ [])).state ≡ closed)
    × ((run tripped (check 300005 ∷ success ∷ success ∷ success ∷ [])).consecutive_failures ≡ 0)
recovers_example = recovers 300005 300005 tripped storm_opens.0 storm_opens.1 (omega arith)

abbrev inbox_url : List ℕ
inbox_url = js "https://a.example/inbox"

abbrev raced : Circuits → Circuits
raced db = (inbox_url, tripped) ∷ db

operate-react_example :
    (db' : Circuits) × (operate raced inbox_url [] success ≡ some db')
    × (lookup inbox_url db' ≡ (
        if str_eq inbox_url inbox_url
        then some (react (row_of inbox_url (seen raced inbox_url [])) success)
        else lookup inbox_url (seen raced inbox_url [])))
operate-react_example = operate-react raced inbox_url inbox_url [] success

abbrev probing : List Event
probing =
    failure 1
    ∷ failure 2
    ∷ failure 3
    ∷ failure 4
    ∷ failure 5
    ∷ check 300005
    ∷ success
    ∷ success
    ∷ []

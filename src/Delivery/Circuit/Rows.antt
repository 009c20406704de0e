-- ===== src/Delivery/Circuit/Rows.antt =====
-- What the three operations do to the row that they read.
use yurucommu_core.Base.{
  ℕ, ◌-◌, ◌≤◌, ◌<◌, ◌≡◌, ◌≢◌, ◌↔◌, ◌⊎◌, refl, true, Option, none, some, List, [], ◌∷◌, arith,
  is_some, get_or_else, All, length, take_last, length-take_last, All-drop, ceil_seconds, map,
}
use yurucommu_core.Base.Json.{nat, items, of_list}
use yurucommu_core.Delivery.Circuit.{
  CircuitRow, CircuitData, closed, open_, half_open, defer, check_row, success_row, failure_row,
  set_data, should_open, consecutive_failure_threshold, half_open_probes, initial_circuit_row,
  half_open_defer_seconds, parse_recent_outcomes, serialize_recent_outcomes, recent_window_size,
  outcome_of,
}

-- What holds of a row between two operations.
pub record IsRow (r : CircuitRow) : Type 0 where
  pub open_has_deadline : r.state ≡ open_ → is_some r.open_until ≡ true
  pub closed_below : r.state ≡ closed → r.consecutive_failures < consecutive_failure_threshold
  pub probes_agree : r.half_open_probe_attempts ≡ r.half_open_probe_successes
  pub probes_below : r.half_open_probe_attempts < half_open_probes
  pub probes_only_half_open : r.state ≢ half_open → r.half_open_probe_attempts ≡ 0

pub initial-IsRow : IsRow initial_circuit_row
initial-IsRow = ground arith

-- `none` writes nothing.
abbrev pub written : Option CircuitData → CircuitRow → CircuitRow
written none r = r
written (some d) r = set_data d r

pub check_row-IsRow : (now : ℕ) (r : CircuitRow) → IsRow r → IsRow (written (check_row now r).1 r)
unfolding check_row set_data
check_row-IsRow now r h = ground arith

pub success_row-IsRow : (r : CircuitRow) → IsRow r → IsRow (set_data (success_row r) r)
unfolding success_row set_data
success_row-IsRow r h = ground arith

pub failure_row-IsRow :
    (now : ℕ) (r : CircuitRow) → IsRow r → IsRow (set_data (failure_row now r) r)
unfolding failure_row set_data should_open
failure_row-IsRow now r h = ground arith

All-bits : (vs : List ℕ) → All (λ v. v ≤ 1) vs → map outcome_of (items (of_list (map nat vs))) ≡ vs
All-bits [] h = refl
All-bits (v ∷ vs) h = ground (arith, All-bits vs h.1)

take_last_idem :
    (vs : List ℕ) → length vs ≤ recent_window_size → take_last recent_window_size vs ≡ vs
take_last_idem vs h = let e : length vs - recent_window_size ≡ 0 = omega arith in rw e

-- What is stored of a window of outcomes reads back as its last twenty.
pub parse-serialize_recent_outcomes :
    (values : List ℕ)
    → All (λ v. v ≤ 1) values
    → parse_recent_outcomes (serialize_recent_outcomes values) ≡ take_last recent_window_size values
unfolding parse_recent_outcomes serialize_recent_outcomes
parse-serialize_recent_outcomes values h =
    rw
      (All-bits (take_last recent_window_size values)
        (All-drop (λ v. v ≤ 1) (length values - recent_window_size) values h))
      (take_last_idem (take_last recent_window_size values)
        (omega (arith, length-take_last recent_window_size values)))

-- `checkCircuit` defers exactly in two cases: until the end of the open window, by its rest in
-- seconds rounded up, and by half a minute once every half-open probe is taken.
pub check_row_defers_iff :
    (now seconds : ℕ) (r : CircuitRow)
    → ((check_row now r).0 ≡ defer seconds) ↔ (
        ((r.state ≡ open_)
          × (is_some r.open_until ≡ true)
          × (now < get_or_else r.open_until 0)
          × (seconds ≡ ceil_seconds (get_or_else r.open_until 0 - now)))
        ⊎ ((r.state ≡ half_open)
            × (half_open_probes ≤ r.half_open_probe_attempts)
            × (seconds ≡ half_open_defer_seconds)))
unfolding check_row
check_row_defers_iff now seconds r = ground arith

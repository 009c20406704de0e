-- ===== src/Delivery/Circuit.antt =====
-- src/backend/lib/delivery/circuit.ts: the per-endpoint circuit breaker of outbound delivery.
-- A time is a number of milliseconds; `open_until` is the instant that the stored ISO text
-- spells, and `none` stands for a null or unreadable text, which the code treats alike.
pub mod Rows
pub mod Recovery
pub mod Tables
mod Tests
use mathlib.Core.Option
use yurucommu_core.Base.{
  ℕ, ◌+◌, ◌*◌, ◌-◌, max, Bool, ◌&&◌, ◌||◌, Option, none, some, List, [], ◌∷◌, ◌++◌, map,
  if◌then◌else◌, ltb, leb, ◌==◌, ceil_seconds, get_or_else, length, take_last, JsString, JsMap,
  lookup, insert, modify,
}
use yurucommu_core.Base.Json.{
  Json, null, bool, nat, negative, fraction, str, arr, obj, items, of_list,
}

pub data CircuitState : Type 0 where
  closed open_ half_open : CircuitState

abbrev pub open_duration_ms : ℕ
open_duration_ms = 5 * 60 * 1000

abbrev pub half_open_probes : ℕ
half_open_probes = 3

abbrev pub half_open_defer_seconds : ℕ
half_open_defer_seconds = 30

abbrev pub recent_window_size : ℕ
recent_window_size = 20

abbrev pub consecutive_failure_threshold : ℕ
consecutive_failure_threshold = 5

-- `recent_outcomes_json` is the value that the column's text parses to, `none` if it does not.
pub record CircuitRow : Type 0 where
  pub state : CircuitState
  pub consecutive_failures : ℕ
  pub recent_outcomes_json : Option Json
  pub open_until : Option ℕ
  pub half_open_probe_attempts : ℕ
  pub half_open_probe_successes : ℕ

-- `Partial<Omit<CircuitRow, "endpoint">>`: a column that is `none` is not written.
pub record CircuitData : Type 0 where
  pub state : Option CircuitState
  pub consecutive_failures : Option ℕ
  pub recent_outcomes_json : Option (Option Json)
  pub open_until : Option (Option ℕ)
  pub half_open_probe_attempts : Option ℕ
  pub half_open_probe_successes : Option ℕ

abbrev pub initial_circuit_row : CircuitRow
initial_circuit_row = record {
  state = closed;
  consecutive_failures = 0;
  recent_outcomes_json = some (arr (of_list []));
  open_until = none;
  half_open_probe_attempts = 0;
  half_open_probe_successes = 0;
}

-- `v === 1 ? 1 : 0`
abbrev pub outcome_of : Json → ℕ
outcome_of (nat n) = if n == 1 then 1 else 0
outcome_of _ = 0

unfoldable pub parse_recent_outcomes : Option Json → List ℕ
parse_recent_outcomes (some (arr vs)) = take_last recent_window_size (map outcome_of (items vs))
parse_recent_outcomes _ = []

unfoldable pub serialize_recent_outcomes : List ℕ → Option Json
serialize_recent_outcomes values =
    some (arr (of_list (map nat (take_last recent_window_size values))))

-- The row's window with one more outcome, 0 for success and 1 for failure.
unfoldable pub recent_with_outcome : CircuitRow → ℕ → List ℕ
recent_with_outcome circuit outcome =
    parse_recent_outcomes circuit.recent_outcomes_json ++ outcome ∷ []

unfoldable pub build_open_data : ℕ → List ℕ → ℕ → CircuitData
build_open_data now recent consecutive_failures = record {
  state = some open_;
  consecutive_failures = some consecutive_failures;
  recent_outcomes_json = some (serialize_recent_outcomes recent);
  open_until = some (some (now + open_duration_ms));
  half_open_probe_attempts = some 0;
  half_open_probe_successes = some 0;
}

-- `.set(data)` on one row
unfoldable pub set_data : CircuitData → CircuitRow → CircuitRow
set_data d r = record {
  state = get_or_else d.state r.state;
  consecutive_failures = get_or_else d.consecutive_failures r.consecutive_failures;
  recent_outcomes_json = get_or_else d.recent_outcomes_json r.recent_outcomes_json;
  open_until = get_or_else d.open_until r.open_until;
  half_open_probe_attempts = get_or_else d.half_open_probe_attempts r.half_open_probe_attempts;
  half_open_probe_successes = get_or_else d.half_open_probe_successes r.half_open_probe_successes;
}

pub data Decision : Type 0 where
  allow : Decision
  defer : ℕ → Decision

-- `checkCircuit` on the row that it read: the decision, and the update if there is one.
unfoldable pub check_row : ℕ → CircuitRow → Decision × Option CircuitData
check_row now circuit = go circuit.state
  where
    half_open_data : CircuitData
    half_open_data = record {
      state = some half_open;
      consecutive_failures = none;
      recent_outcomes_json = none;
      open_until = some none;
      half_open_probe_attempts = some 0;
      half_open_probe_successes = some 0;
    }

    waiting : Option ℕ → Decision × Option CircuitData
    waiting none = (allow, some half_open_data)
    waiting (some until_ms) =
        if ltb now until_ms
        then (defer (max 1 (ceil_seconds (until_ms - now))), none)
        else (allow, some half_open_data)

    go : CircuitState → Decision × Option CircuitData
    go open_ = waiting circuit.open_until
    go half_open =
        if leb half_open_probes circuit.half_open_probe_attempts
        then (defer half_open_defer_seconds, none)
        else (allow, none)
    go closed = (allow, none)

-- `recordCircuitSuccess` on the row that it read: the update.
unfoldable pub success_row : CircuitRow → CircuitData
unfolding recent_with_outcome
success_row circuit = go circuit.state
  where
    serialized : Option Json
    serialized = serialize_recent_outcomes (recent_with_outcome circuit 0)

    plain : CircuitData
    plain = record {
      state = none;
      consecutive_failures = some 0;
      recent_outcomes_json = some serialized;
      open_until = none;
      half_open_probe_attempts = none;
      half_open_probe_successes = none;
    }

    go : CircuitState → CircuitData
    go half_open =
        let next_attempts = circuit.half_open_probe_attempts + 1 in
        let next_successes = circuit.half_open_probe_successes + 1 in
        if leb half_open_probes next_attempts && leb half_open_probes next_successes
        then record {
          state = some closed;
          consecutive_failures = some 0;
          recent_outcomes_json = some serialized;
          open_until = some none;
          half_open_probe_attempts = some 0;
          half_open_probe_successes = some 0;
        }
        else record plain {
          half_open_probe_attempts = some next_attempts;
          half_open_probe_successes = some next_successes;
        }
    go _ = plain

-- `window.reduce((sum, v) => sum + v, 0)`
unfoldable pub sum : List ℕ → ℕ
sum [] = 0
sum (v ∷ vs) = v + sum vs

-- `failures / RECENT_WINDOW_SIZE >= FAILURE_RATE_THRESHOLD`, the threshold 0.6 being 6 / 10
unfoldable pub should_open : ℕ → List ℕ → Bool
should_open consecutive_failures window =
    leb consecutive_failure_threshold consecutive_failures
    || (length window == recent_window_size && leb (6 * recent_window_size) (10 * sum window))

-- `recordCircuitFailure` on the row that it read: the update.
unfoldable pub failure_row : ℕ → CircuitRow → CircuitData
unfolding build_open_data
failure_row now circuit = go circuit.state
  where
    recent : List ℕ
    recent = recent_with_outcome circuit 1

    counted : CircuitData
    counted =
        let consecutive_failures = circuit.consecutive_failures + 1 in
        if should_open consecutive_failures (take_last recent_window_size recent)
        then build_open_data now recent consecutive_failures
        else record {
          state = none;
          consecutive_failures = some consecutive_failures;
          recent_outcomes_json = some (serialize_recent_outcomes recent);
          open_until = none;
          half_open_probe_attempts = none;
          half_open_probe_successes = none;
        }

    go : CircuitState → CircuitData
    go half_open = build_open_data now recent consecutive_failure_threshold
    go _ = counted

-- The table, by endpoint.
abbrev pub Circuits : Type 0
Circuits = JsMap CircuitRow

unfoldable pub update_circuit : Circuits → JsString → CircuitData → Circuits
update_circuit db endpoint d = modify endpoint (set_data d) db

-- The waits of an operation: for its SELECT, after which it INSERTs, for an INSERT that a conflict
-- swallowed, and for the row, after which it writes.
pub data Gap : Type 0 where
  before_insert before_reselect before_update : Gap

-- `others` is what the other deliveries do to the table in each gap. An update is computed from the
-- row that was read, whatever became of that row in the meantime. `none` is the undefined `winner`,
-- on which the callers throw.
module _ (others : Gap → Circuits → Circuits) where
  unfoldable pub get_or_create_circuit : Circuits → JsString → Option (CircuitRow × Circuits)
  get_or_create_circuit db endpoint = existing (lookup endpoint db)
    where
      selected : Circuits → Option CircuitRow → Option (CircuitRow × Circuits)
      selected db' none = none
      selected db' (some winner) = some (winner, db')

      on_conflict : Circuits → Option CircuitRow → Option (CircuitRow × Circuits)
      on_conflict db' none = some (initial_circuit_row, insert endpoint initial_circuit_row db')
      on_conflict db' (some other) =
          let after = others before_reselect db' in selected after (lookup endpoint after)

      existing : Option CircuitRow → Option (CircuitRow × Circuits)
      existing (some row) = some (row, db)
      existing none =
          let after = others before_insert db in on_conflict after (lookup endpoint after)

  -- The update that a check asks for, if there is one.
  unfoldable pub write_back :
      JsString → Circuits → Decision × Option CircuitData → Decision × Circuits
  write_back endpoint db (d, none) = (d, db)
  write_back endpoint db (d, some u) = (d, update_circuit (others before_update db) endpoint u)

  unfoldable pub check_circuit : ℕ → Circuits → JsString → Option (Decision × Circuits)
  check_circuit now db endpoint = decided (get_or_create_circuit db endpoint)
    where
      decided : Option (CircuitRow × Circuits) → Option (Decision × Circuits)
      decided none = none
      decided (some (row, db')) = some (write_back endpoint db' (check_row now row))

  unfoldable pub record_circuit_success : Circuits → JsString → Option Circuits
  record_circuit_success db endpoint = Option.map after (get_or_create_circuit db endpoint)
    where
      after : CircuitRow × Circuits → Circuits
      after (row, db') = update_circuit (others before_update db') endpoint (success_row row)

  unfoldable pub record_circuit_failure : ℕ → Circuits → JsString → Option Circuits
  record_circuit_failure now db endpoint = Option.map after (get_or_create_circuit db endpoint)
    where
      after : CircuitRow × Circuits → Circuits
      after (row, db') = update_circuit (others before_update db') endpoint (failure_row now row)

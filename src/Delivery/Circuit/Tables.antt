-- ===== src/Delivery/Circuit/Tables.antt =====
-- The operations on the table act on their own endpoint's row alone, and a race to create the row
-- ends with one row that every delivery uses.
use mathlib.Core.Option
use yurucommu_core.Base.{
  ◌≡◌, ◌∙◌, ap, sym, ◌≢◌, refl, Option, none, some, if◌then◌else◌, JsString, str_eq, str_eq_iff,
  str_eq_refl, lookup, insert, Option-cases, Bool-cases, is_some, get_or_else, inl, inr,
  lookup-insert, lookup-insert_ne, lookup-modify_self, lookup-modify_ne,
}
use yurucommu_core.Delivery.Circuit.{
  Gap, before_insert, CircuitRow, CircuitData, Decision, Circuits, check_row, success_row,
  failure_row, set_data, initial_circuit_row, get_or_create_circuit, update_circuit, write_back,
  check_circuit, record_circuit_success, record_circuit_failure,
}
use yurucommu_core.Delivery.Circuit.Rows.{written}
use yurucommu_core.Delivery.Circuit.Recovery.{Event, check, success, failure, react}

-- The row of an endpoint, a new one if the table has none.
abbrev pub row_of : JsString → Circuits → CircuitRow
row_of endpoint db = get_or_else (lookup endpoint db) initial_circuit_row

-- The others act while the row is created, and no one else writes to the table from then on.
abbrev pub creating : (Circuits → Circuits) → Gap → Circuits → Circuits
creating others before_insert db = others db
creating others _ db = db

-- A delivery's operation on the table.
unfoldable pub operate : (Circuits → Circuits) → JsString → Circuits → Event → Option Circuits
operate others endpoint db (check now) =
    Option.map (λ r. r.1) (check_circuit (creating others) now db endpoint)
operate others endpoint db success = record_circuit_success (creating others) db endpoint
operate others endpoint db (failure now) = record_circuit_failure (creating others) now db endpoint

-- The table that an operation works on: what the others left of it, where the row is created.
abbrev pub seen : (Circuits → Circuits) → JsString → Circuits → Circuits
seen others endpoint db = if is_some (lookup endpoint db) then db else others db

-- What `getOrCreateCircuit` returns, with the laws of its table.
abbrev Created : JsString → JsString → Circuits → Option (CircuitRow × Circuits) → Type 0
Created endpoint j before result =
    (db' : Circuits) × (result ≡ some (row_of endpoint before, db'))
    × (lookup endpoint db' ≡ some (row_of endpoint before))
    × (endpoint ≢ j → lookup j db' ≡ lookup j before)

module _ (others : Circuits → Circuits) (endpoint j : JsString) (db : Circuits) where
  created :
      Created endpoint j
        (seen others endpoint db)
        (get_or_create_circuit (creating others) db endpoint)
  unfolding get_or_create_circuit
  created = elim (Option-cases (lookup endpoint db)) [
    | inr (r, e) ↦ rw e (db, rw e refl, rw e refl, λ _. refl)
    | inl e ↦ elim (Option-cases (lookup endpoint (others db))) [
      | inr (r, f) ↦ rw e (others db, rw f (rw f refl), rw f refl, λ _. refl)
      | inl f ↦ rw e (
        insert endpoint initial_circuit_row (others db),
        rw f refl,
        rw (lookup-insert, str_eq_refl, f) refl,
        lookup-insert_ne endpoint j initial_circuit_row (others db),
      )
    ]
  ]

  -- An update of the row that was created or found.
  abbrev Moved : (CircuitRow → CircuitRow) → Option Circuits → Type 0
  Moved f result =
      (db' : Circuits) × (result ≡ some db')
      × (lookup endpoint db' ≡ some (f (row_of endpoint (seen others endpoint db))))
      × (endpoint ≢ j → lookup j db' ≡ lookup j (seen others endpoint db))

  updated :
      (d : CircuitData) (db' : Circuits) {r : CircuitRow}
      → lookup endpoint db' ≡ some r
      → lookup endpoint (update_circuit db' endpoint d) ≡ some (set_data d r)
  unfolding update_circuit
  updated d db' h = lookup-modify_self endpoint (set_data d) db' h

  untouched :
      (d : CircuitData) (db' : Circuits)
      → endpoint ≢ j
      → lookup j (update_circuit db' endpoint d) ≡ lookup j db'
  unfolding update_circuit
  untouched d db' h = lookup-modify_ne endpoint j (set_data d) db' h

  checked :
      (db' : Circuits) {r : CircuitRow}
      → lookup endpoint db' ≡ some r
      → (endpoint ≢ j → lookup j db' ≡ lookup j (seen others endpoint db))
      → (w : Decision × Option CircuitData)
      → (db'' : Circuits) × (some (write_back (creating others) endpoint db' w).1 ≡ some db'')
        × (lookup endpoint db'' ≡ some (written w.1 r))
        × (endpoint ≢ j → lookup j db'' ≡ lookup j (seen others endpoint db))
  unfolding write_back
  checked db' l k (d, none) = (db', refl, l, k)
  checked db' l k (d, some u) =
      (update_circuit db' endpoint u, refl, updated u db' l, λ h. untouched u db' h ∙ k h)

  moved : (e : Event) → Moved (λ r. react r e) (operate others endpoint db e)
  unfolding operate check_circuit record_circuit_success record_circuit_failure react
  moved success =
      let (db', e, l, k) = created in
      rw e (
        update_circuit db' endpoint (success_row (row_of endpoint (seen others endpoint db))),
        refl,
        updated _ db' l,
        λ h. untouched _ db' h ∙ k h,
      )
  moved (failure now) =
      let (db', e, l, k) = created in
      rw e (
        update_circuit db' endpoint (failure_row now (row_of endpoint (seen others endpoint db))),
        refl,
        updated _ db' l,
        λ h. untouched _ db' h ∙ k h,
      )
  moved (check now) =
      let (db', e, l, k) = created in
      rw e (checked db' l k (check_row now (row_of endpoint (seen others endpoint db))))

  lookup_same :
      (db' : Circuits) {o : Option CircuitRow}
      → endpoint ≡ j
      → lookup endpoint db' ≡ o
      → lookup j db' ≡ o
  lookup_same db' p l = ap (λ k. lookup k db') (sym p) ∙ l

  -- An operation never throws, whatever other deliveries do to the table while it creates the
  -- row, between its SELECT and its INSERT, if they leave the table alone from then on: it works on one row, the one that the race left, moves it by `react` and leaves every
  -- other row as it was.
  pub operate-react :
      (e : Event)
      → (db' : Circuits) × (operate others endpoint db e ≡ some db')
        × (lookup j db' ≡ (
            if str_eq endpoint j
            then some (react (row_of endpoint (seen others endpoint db)) e)
            else lookup j (seen others endpoint db)))
  operate-react e =
      let (db', o, l, k) = moved e in
      (
        db',
        o,
        elim (Bool-cases (str_eq endpoint j)) [
          | inl same ↦ rw same (lookup_same db' ((str_eq_iff endpoint j).0 same) l)
          | inr other ↦ rw other (k (λ p. cc (other, (str_eq_iff endpoint j).1 p)))
        ],
      )

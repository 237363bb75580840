-- ===== src/Dispensing/Engine/Audit.antt =====
-- `audit_totalizer`: the hardware counter against the litres that were logged.
use fuel_monitoring.Prelude.{
  ℕ, ◌+◌, ◌-◌, ◌*◌, Bool, true, false, ◌&&◌, Option, none, some, List, [], ◌∷◌, leb, ltb, ◌==◌,
  find, if◌then◌else◌,
}
use fuel_monitoring.Dispensing.Models.{DispenseTransaction, TxnStatus, StationTotalizer, Db}

-- `TOTALIZER_DISCREPANCY_TOLERANCE_LITERS`, in millilitres
abbrev pub totalizer_tolerance : ℕ
totalizer_tolerance = 1000

abbrev pub is_completed : TxnStatus → Bool
is_completed TxnStatus.completed = true
is_completed TxnStatus.over_dispense = false

-- `sum` over the selected transactions of the dispenser
unfoldable pub logged_liters : ℕ → List DispenseTransaction → ℕ
logged_liters dispenser [] = 0
logged_liters dispenser (t ∷ ts) =
    (if t.dispenser_id == dispenser && is_completed t.status then t.actual_liters else 0)
    + logged_liters dispenser ts

-- `|a - b|`
abbrev pub distance : ℕ → ℕ → ℕ
distance a b = if leb a b then b - a else a - b

abbrev pub reading : (station dispenser value cumulative : ℕ) → StationTotalizer
reading station dispenser value cumulative = record {
  station_id = station;
  dispenser_id = dispenser;
  totalizer_value = value;
  cumulative_liters = cumulative;
}

abbrev pub add_reading : StationTotalizer → Db → Db
add_reading t db = record db { totalizers = t ∷ db.totalizers }

-- A pulse is 10 millilitres: 100 pulses are one litre.
unfoldable pub audit_against :
    (station dispenser value : ℕ) → Option StationTotalizer → Db → (Bool × Option ℕ) × Db
audit_against station dispenser value none db =
    ((true, none), add_reading (reading station dispenser value 0) db)
audit_against station dispenser value (some last) db =
    let dispensed_now = (value - last.totalizer_value) * 10 in
    let logged = logged_liters dispenser db.txns in
    let discrepancy = distance logged dispensed_now in
    if ltb value last.totalizer_value then ((false, none), db) else (
      (leb discrepancy totalizer_tolerance, some discrepancy),
      add_reading (reading station dispenser value logged) db,
    )

unfoldable pub audit_totalizer : (station dispenser value : ℕ) → Db → (Bool × Option ℕ) × Db
audit_totalizer station dispenser value db =
    audit_against station dispenser value (find (λ t. t.dispenser_id == dispenser) db.totalizers) db

-- ===== src/Dispensing/Discrepancy.antt =====
-- What the totalizer audit detects, and where its two sides measure different spans of time.
use fuel_monitoring.Prelude.{
  ℕ, ◌+◌, ◌-◌, ◌*◌, ◌≤◌, ◌<◌, ◌≡◌, false, Option, none, some, arith, find, ◌==◌,
}
use fuel_monitoring.Dispensing.Models.{StationTotalizer, Db}
use fuel_monitoring.Dispensing.Engine.Audit.{
  logged_liters, totalizer_tolerance, audit_against, audit_totalizer,
}

module _ (station dispenser value : ℕ) (db : Db) where
  abbrev newest : Option StationTotalizer
  newest = find (λ t. t.dispenser_id == dispenser) db.totalizers

  -- A counter that went back is reported, and its reading is not stored.
  pub audit_rollback :
      (last : StationTotalizer)
      → newest ≡ some last
      → value < last.totalizer_value
      → audit_totalizer station dispenser value db ≡ ((false, none), db)
  unfolding audit_totalizer audit_against
  audit_rollback last q back = rw q (ground arith)

  -- The pump and the log agree on what was dispensed since the last reading: the counter moved by as
  -- many pulses as the litres that were logged since. The audit still reports a discrepancy, as soon
  -- as more than the tolerance had been logged before that reading: it compares the litres of all
  -- time with the pulses of the last interval.
  pub audit_false_alarm :
      (last : StationTotalizer)
      → newest ≡ some last
      → last.totalizer_value ≤ value
      → last.cumulative_liters + (value - last.totalizer_value) * 10
        ≡ logged_liters dispenser db.txns
      → totalizer_tolerance < last.cumulative_liters
      → (audit_totalizer station dispenser value db).0 ≡ (false, some last.cumulative_liters)
  unfolding audit_totalizer audit_against
  audit_false_alarm last q forth agree much = rw q (ground arith)

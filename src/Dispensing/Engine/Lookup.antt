-- ===== src/Dispensing/Engine/Lookup.antt =====
-- The state of the dispensing engine, and `_lookup_code`, `_find_existing_txn`.
use fuel_monitoring.Prelude.{ℕ, Option, none, some, List, [], ◌∷◌, Text, ◌==◌, if◌then◌else◌}
use fuel_monitoring.Redis.{Redis}
use fuel_monitoring.Security.{Crypto, code_fingerprint, verify_code}
use fuel_monitoring.Dispensing.Keys.{Key, Value}
use fuel_monitoring.Dispensing.Models.{
  Allocation, DispenseCode, DispenseTransaction, Db, Result, ok, ◌>>=◌, scalar_one_or_none,
  codes_with_fp, allocations_with_id,
}

-- What the engine reads and writes: the tables and the Redis store.
pub record World (r : Redis Key Value) : Type 0 where
  pub db : Db
  pub store : r.Store

abbrev pub with_code : DispenseCode → Option Allocation → Option (DispenseCode × Allocation)
with_code c none = none
with_code c (some a) = some (c, a)

module _ (crypto : Crypto) where
  -- `_lookup_code`, after the row of the fingerprint was selected
  unfoldable pub verified_row :
      Text → Db → Option DispenseCode → Result (Option (DispenseCode × Allocation))
  verified_row code db none = ok none
  verified_row code db (some c) =
      if verify_code crypto code c.code_hash
      then (do
        alloc ← scalar_one_or_none (allocations_with_id c.allocation_id db)
        ok (with_code c alloc))
      else ok none

  unfoldable pub lookup_code : Text → Db → Result (Option (DispenseCode × Allocation))
  lookup_code code db = do
    found ← scalar_one_or_none (codes_with_fp (code_fingerprint crypto code) db)
    verified_row code db found

  -- `.order_by(created_at.desc()).limit(1)`
  abbrev pub newest_txn : ℕ → List DispenseTransaction → Option DispenseTransaction
  newest_txn code_id [] = none
  newest_txn code_id (t ∷ ts) = if t.code_id == code_id then some t else newest_txn code_id ts

  abbrev pub txn_of : Db → Option (DispenseCode × Allocation) → Option DispenseTransaction
  txn_of db none = none
  txn_of db (some (c, a)) = newest_txn c.id db.txns

  -- `_find_existing_txn`
  unfoldable pub find_existing_txn : Text → Db → Result (Option DispenseTransaction)
  find_existing_txn code db = do stored ← lookup_code code db; ok (txn_of db stored)

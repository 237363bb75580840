-- ===== src/Dispensing/Engine/Completion.antt =====
-- `complete_dispense`: the lock, the replay guard, and the settlement between them.
use fuel_monitoring.Prelude.{
  ℕ, zero, suc, ◌+◌, Bool, true, false, Option, none, some, Text, if◌then◌else◌,
}
use fuel_monitoring.Redis.{Redis}
use fuel_monitoring.Security.{Crypto, code_fingerprint}
use fuel_monitoring.Dispensing.Keys.{Key, consumed_set, lock, Value, marker}
use fuel_monitoring.Dispensing.Models.{
  Allocation, DispenseCode, DispenseTransaction, CompleteRequest, CompleteResponse, ResponseStatus,
  Result, ok, err, lock_busy,
}
use fuel_monitoring.Dispensing.Engine.Lookup.{World, lookup_code, find_existing_txn}
use fuel_monitoring.Dispensing.Engine.Settlement.{SettleDraws, respond, settle}

-- `_reject_complete`; the reason is not part of the response.
abbrev pub reject_complete : CompleteResponse
reject_complete = record {
  success = false;
  transaction_id = 0;
  status = ResponseStatus.rejected;
  actual_liters = 0;
  requested_liters = 0;
  outcome = none;
}

-- `_from_existing`
abbrev pub from_existing : DispenseTransaction → CompleteResponse
from_existing t = record {
  success = true;
  transaction_id = t.id;
  status = ResponseStatus.completed;
  actual_liters = t.actual_liters;
  requested_liters = t.requested_liters;
  outcome = none;
}

-- `range(50)`
abbrev pub lock_attempts : ℕ
lock_attempts = 50

module _ (crypto : Crypto) (r : Redis Key Value) where
  module _ (others : ℕ → r.Store → r.Store) where
    -- `_acquire_lock`, with the attempts left and the number of this one. `others i` is what the
    -- other clients and expiry do to the store during the sleep after attempt `i`.
    unfoldable pub acquire_lock : (left attempt : ℕ) → Text → r.Store → Bool × r.Store
    acquire_lock zero i fp s = (false, s)
    acquire_lock (suc left) i fp s =
        let (won, s') = r.set_nx_ex (lock fp) marker 30 s in
        let rest = acquire_lock left (i + 1) fp (others i s') in if won then (true, s') else rest

  -- `_release_lock`
  abbrev pub release_lock : Text → World r → World r
  release_lock fp w = record w { store = r.delete (lock fp) w.store }

  abbrev pub replayed : Result (Option DispenseTransaction) → Result CompleteResponse
  replayed (err e) = err e
  replayed (ok none) = respond reject_complete
  replayed (ok (some t)) = respond (from_existing t)

  unfoldable pub complete_row :
      ℕ
      → SettleDraws
      → CompleteRequest
      → Result (Option (DispenseCode × Allocation))
      → World r
      → Result CompleteResponse × World r
  complete_row now draws req (err e) w = (err e, w)
  complete_row now draws req (ok none) w = (respond reject_complete, w)
  complete_row now draws req (ok (some (c, a))) w =
      settle crypto r now draws (code_fingerprint crypto req.code) req c a w

  -- The body of the `try`, under the lock.
  unfoldable pub complete_locked :
      ℕ → SettleDraws → CompleteRequest → World r → Result CompleteResponse × World r
  complete_locked now draws req w =
      if r.sismember consumed_set (code_fingerprint crypto req.code) w.store
      then (replayed (find_existing_txn crypto req.code w.db), w)
      else complete_row now draws req (lookup_code crypto req.code w.db) w

  -- The `finally`: the lock is released whatever came out.
  abbrev pub finally : Text → Result CompleteResponse × World r → Result CompleteResponse × World r
  finally fp (resp, w) = (resp, release_lock fp w)

  unfoldable pub complete_with :
      ℕ
      → SettleDraws
      → CompleteRequest
      → World r
      → Bool × r.Store
      → Result CompleteResponse × World r
  complete_with now draws req w (false, s) = (err lock_busy, record w { store = s })
  complete_with now draws req w (true, s) =
      finally (code_fingerprint crypto req.code)
        (complete_locked now draws req (record w { store = s }))

  unfoldable pub complete_dispense :
      (others : ℕ → r.Store → r.Store)
      → ℕ
      → SettleDraws
      → CompleteRequest
      → World r
      → Result CompleteResponse × World r
  complete_dispense others now draws req w =
      complete_with now draws req w
        (acquire_lock others lock_attempts 0 (code_fingerprint crypto req.code) w.store)

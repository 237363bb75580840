-- ===== src/Dispensing/Outcomes.antt =====
-- How a settlement request ends: its answer, its exceptions, and the code for the leftover.
use fuel_monitoring.Prelude.{
  ℕ, ◌+◌, ◌-◌, ◌≡◌, refl, ◌≢◌, Bool, true, false, none, some, Text, arith, [], ◌∷◌, if◌then◌else◌,
}
use fuel_monitoring.Redis.{Redis, RedisLaws}
use fuel_monitoring.Security.{Crypto, code_fingerprint}
use fuel_monitoring.Dispensing.Keys.{Key, consumed_set, lock, Value}
use fuel_monitoring.Dispensing.Models.{
  Allocation, AllocationStatus, DispenseCode, CodeStatus, DispenseTransaction, CompleteRequest, Db,
  CompleteResponse, ResponseStatus, ok, err, validation, redis_error, lock_busy, round3,
  codes_with_fp, allocations_with_id,
}
use fuel_monitoring.Dispensing.Inversion.{lookup_code-some, respond-settled}
use fuel_monitoring.Dispensing.Settled.{settled_db-code_row, settled_db-allocation_row}
use fuel_monitoring.Dispensing.Engine.Lookup.{World, lookup_code, verified_row}
use fuel_monitoring.Dispensing.Engine.Settlement.{
  SettleDraws, all_done, mark_raises, has_raised, after_commit, new_txn, settled_db, make_leftover,
  settle, settled_response, settled_allocation, settled_code, leaves_partial,
}
use fuel_monitoring.Dispensing.Engine.Completion.{
  lock_attempts, acquire_lock, complete_row, complete_locked, complete_with, complete_dispense,
}

module _ (crypto : Crypto) (r : Redis Key Value) (now : ℕ) (draws : SettleDraws)
    (req : CompleteRequest) where
  abbrev fp : Text
  fp = code_fingerprint crypto req.code

  -- An unknown code is no rejection but a validation error, under a free lock: the schema of the
  -- response does not admit the status "REJECTED".
  pub complete_locked_unknown :
      (w : World r)
      → r.sismember consumed_set fp w.store ≡ false
      → lookup_code crypto req.code w.db ≡ ok none
      → complete_locked crypto r now draws req w ≡ (err validation, w)
  unfolding complete_locked complete_row
  complete_locked_unknown w unused unknown = rw (unused, unknown)

  -- The settlement looks at no status and no expiry: whatever the states of an unconsumed code and
  -- of its allocation are, a dispense that leaves no remainder worth a code closes the allocation with
  -- the litres booked, and consumes the code. It succeeds, unless Redis raises after the commit.
  pub complete_locked_whole :
      (w : World r) (c : DispenseCode) (a : Allocation)
      → r.sismember consumed_set fp w.store ≡ false
      → lookup_code crypto req.code w.db ≡ ok (some (c, a))
      → leaves_partial a (round3 req.actual_liters) ≡ false
      → let (answer, after) = complete_locked crypto r now draws req w in
        (x : CompleteResponse) × (answer
          ≡ (if has_raised draws.writes none then err redis_error else ok x))
        × (x.actual_liters ≡ round3 req.actual_liters)
        × (x.status ≢ ResponseStatus.is_partial)
        × (b : Allocation) × (allocations_with_id c.allocation_id after.db ≡ b ∷ [])
        × (b.dispensed_liters ≡ a.dispensed_liters + round3 req.actual_liters)
        × (b.remaining_liters ≡ a.remaining_liters - round3 req.actual_liters)
        × (b.status ≡ AllocationStatus.fulfilled)
        × (d : DispenseCode) × (codes_with_fp fp after.db ≡ d ∷ [])
        × (d.status ≡ CodeStatus.consumed)
        × (d.consumed_liters ≡ c.consumed_liters + round3 req.actual_liters)
  unfolding complete_locked complete_row settle make_leftover
  complete_locked_whole w c a unused row whole =
      let actual = round3 req.actual_liters in
      let found = lookup_code-some crypto req.code w.db c a row in
      rw (unused, row, whole, respond-settled w.db req c a none)
        (
          settled_response w.db req c a none,
          refl,
          unfold settled_response in refl,
          unfold settled_response in (λ e. ground arith),
          settled_allocation a actual a,
          settled_db-allocation_row crypto now w.db req c a found none tt,
          unfold settled_allocation in refl,
          unfold settled_allocation in refl,
          unfold settled_allocation in ground arith,
          settled_code now c actual c,
          settled_db-code_row crypto now w.db req c a found none tt,
          unfold settled_code in refl,
          unfold settled_code in refl,
        )

  -- What a settlement without a leftover does.
  complete_locked_closes :
      (d : SettleDraws) (w : World r) (c : DispenseCode) (a : Allocation)
      → r.sismember consumed_set fp w.store ≡ false
      → lookup_code crypto req.code w.db ≡ ok (some (c, a))
      → leaves_partial a (round3 req.actual_liters) ≡ false
      → complete_locked crypto r now d req w ≡ (
        if has_raised d.writes none
            then err redis_error
            else ok (settled_response w.db req c a none),
        record {
          db = settled_db now w.db req c a none;
          store = after_commit crypto r d.writes fp a none w.store;
        },
      )
  unfolding complete_locked complete_row settle make_leftover
  complete_locked_closes d w c a unused row whole =
      rw (unused, row, whole, respond-settled w.db req c a none) refl

  -- The lookup of a code after such a settlement finds its rows as they were set.
  lookup_code-settled :
      (db : Db) (c : DispenseCode) (a : Allocation)
      → lookup_code crypto req.code db ≡ ok (some (c, a))
      → let actual = round3 req.actual_liters in
        lookup_code crypto req.code (settled_db now db req c a none)
        ≡ ok (some (settled_code now c actual c, settled_allocation a actual a))
  unfolding lookup_code verified_row settled_code
  lookup_code-settled db c a row =
      let found = lookup_code-some crypto req.code db c a row in
      rw
        (
          settled_db-code_row crypto now db req c a found none tt,
          found.verified,
          settled_db-allocation_row crypto now db req c a found none tt,
        )
        refl

  -- A settlement that ends in an exception of Redis after its commit, before the code was marked as
  -- consumed, books again when the request is repeated: for a code whose dispense leaves no remainder
  -- worth a code, the first call raises, with its transaction in the table; the second one succeeds,
  -- with another transaction, and the allocation has the litres of both.
  pub complete_locked_twice :
      (draws' : SettleDraws) (w : World r) (c : DispenseCode) (a : Allocation)
      → r.sismember consumed_set fp w.store ≡ false
      → lookup_code crypto req.code w.db ≡ ok (some (c, a))
      → leaves_partial a (round3 req.actual_liters) ≡ false
      → draws.writes ≡ mark_raises
      → draws'.writes ≡ all_done
      → let (first, between) = complete_locked crypto r now draws req w in
        let (second, after) = complete_locked crypto r now draws' req between in
        (first ≡ err redis_error)
        × (x : CompleteResponse) × (second ≡ ok x)
        × (t : DispenseTransaction) × (u : DispenseTransaction) × (between.db.txns ≡ t ∷ w.db.txns)
        × (after.db.txns ≡ u ∷ t ∷ w.db.txns)
        × (t.allocation_id ≡ a.id)
        × (u.allocation_id ≡ a.id)
        × (b : Allocation) × (allocations_with_id c.allocation_id after.db ≡ b ∷ [])
        × (b.dispensed_liters
            ≡ a.dispensed_liters + round3 req.actual_liters + round3 req.actual_liters)
  complete_locked_twice draws' w c a unused row whole lost fine =
      let actual = round3 req.actual_liters in
      let c1 = settled_code now c actual c in
      let a1 = settled_allocation a actual a in
      let between : World r = record { db = settled_db now w.db req c a none; store = w.store } in
      let row1 = lookup_code-settled w.db c a row in
      let whole1 : leaves_partial a1 actual ≡ false = unfold settled_allocation in ground arith in
      let first = complete_locked_closes draws w c a unused row whole in
      let second = complete_locked_closes draws' between c1 a1 unused row1 whole1 in
      let found1 = lookup_code-some crypto req.code between.db c1 a1 row1 in
      rw (first, lost)
        (unfold after_commit in
          rw (second, fine)
            (
              refl,
              settled_response between.db req c1 a1 none,
              refl,
              new_txn w.db req c a,
              new_txn between.db req c1 a1,
              unfold settled_db in refl,
              unfold settled_db in refl,
              unfold new_txn in refl,
              unfold new_txn settled_allocation in refl,
              settled_allocation a1 actual a1,
              unfold settled_code in
                  settled_db-allocation_row crypto now between.db req c1 a1 found1 none tt,
              unfold settled_allocation in refl,
            ))

-- A call that does not end in a busy lock leaves the lock free, however it ends.
pub complete_dispense_unlocks :
    (crypto : Crypto) (r : Redis Key Value) (others : ℕ → r.Store → r.Store) (now : ℕ)
    (draws : SettleDraws) (req : CompleteRequest) (w : World r)
    → RedisLaws r
    → (complete_dispense crypto r others now draws req w).0 ≢ err lock_busy
    → r.get
        (lock (code_fingerprint crypto req.code))
        (complete_dispense crypto r others now draws req w).1.store
      ≡ none
unfolding complete_dispense
complete_dispense_unlocks crypto r others now draws req w laws won =
    unlocked w
      (acquire_lock crypto r others lock_attempts 0 (code_fingerprint crypto req.code) w.store) won
  where
    unlocked :
        (w : World r) (got : Bool × r.Store)
        → (complete_with crypto r now draws req w got).0 ≢ err lock_busy
        → r.get
            (lock (code_fingerprint crypto req.code))
            (complete_with crypto r now draws req w got).1.store
          ≡ none
    unlocked w (false, s) h = absurd (h (unfold complete_with in refl))
    unlocked w (true, s) h =
        unfold complete_with in laws.get-delete (lock (code_fingerprint crypto req.code)) _

-- ===== src/Dispensing/Engine/Settlement.antt =====
-- The settlement in `complete_dispense`: what one dispense does to the tables and to Redis.
use fuel_monitoring.Prelude.{
  ℕ, ◌+◌, ◌-◌, Bool, true, false, not, ◌&&◌, ◌||◌, Option, none, some, List, [], ◌∷◌, ◌++◌, Text,
  length, any, ltb, ◌==◌, if◌then◌else◌, text_eq,
}
use fuel_monitoring.Redis.{Redis}
use fuel_monitoring.Security.{Crypto}
use fuel_monitoring.Dispensing.Keys.{Key, code_cache, consumed_set, Value, cached}
use fuel_monitoring.Dispensing.Models.{
  Allocation, AllocationStatus, DispenseCode, CodeStatus, DispenseTransaction, TxnStatus, Db,
  CompleteRequest, PartialOutcome, ResponseStatus, CompleteResponse, Result, ok, err, ◌>>=◌,
  validation, integrity, redis_error, round3, update_code, update_allocation, fp_exists,
  hash_exists,
}
use fuel_monitoring.Dispensing.Generator.{Draws, Generated, generate_unique_code, code_expiry}
use fuel_monitoring.Dispensing.Engine.Lookup.{World}
use fuel_monitoring.Dispensing.Engine.Validation.{name_or_empty}

-- The settings of platform/fmp/core/config.py, in millilitres.
abbrev pub dispense_grace : ℕ
dispense_grace = 500

abbrev pub partial_min_remaining : ℕ
partial_min_remaining = 1000

abbrev pub code_max_attempts : ℕ
code_max_attempts = 5

-- What Redis does with the three writes after the commit: it answers them all, or the first, the
-- second or the third one raises and is not done.
pub data Writes : Type 0 where
  all_done mark_raises delete_raises cache_raises : Writes

-- What one settlement draws: the ids of the new rows, the secrets of the new code, and how the writes
-- after its commit end.
pub record SettleDraws : Type 0 where
  pub allocation_id : ℕ
  pub code_id : ℕ
  pub code : Draws
  pub writes : Writes

-- `over` and `is_partial`
abbrev pub is_over : Allocation → ℕ → Bool
is_over a actual = ltb (a.remaining_liters + dispense_grace) actual

abbrev pub leaves_partial : Allocation → ℕ → Bool
leaves_partial a actual =
    not (is_over a actual) && ltb partial_min_remaining (a.remaining_liters - actual)

-- The columns that the settlement of `a` sets in its row.
unfoldable pub settled_allocation : Allocation → ℕ → Allocation → Allocation
settled_allocation a actual row = record row {
  dispensed_liters = a.dispensed_liters + actual;
  remaining_liters = a.remaining_liters - actual;
  status =
      if leaves_partial a actual
      then AllocationStatus.partial_fulfilled
      else AllocationStatus.fulfilled;
}

unfoldable pub settled_code : ℕ → DispenseCode → ℕ → DispenseCode → DispenseCode
settled_code now c actual row = record row {
  consumed_liters = c.consumed_liters + actual;
  status = CodeStatus.consumed;
  used_at = some now;
}

unfoldable pub new_txn : Db → CompleteRequest → DispenseCode → Allocation → DispenseTransaction
new_txn db req c a =
    let actual = round3 req.actual_liters in
    record {
      id = db.next_txn_id;
      station_id = req.station_id;
      dispenser_id = req.dispenser_id;
      code_id = c.id;
      employee_id = a.employee_id;
      allocation_id = a.id;
      requested_liters = round3 req.requested_liters;
      actual_liters = actual;
      secret_totalizer_before = req.secret_totalizer_before;
      secret_totalizer_after = req.secret_totalizer_after;
      status = if is_over a actual then TxnStatus.over_dispense else TxnStatus.completed;
    }

-- The allocation and the code of the leftover.
unfoldable pub leftover_allocation : ℕ → Allocation → ℕ → Allocation
leftover_allocation id a remainder = record a {
  id = id;
  allocated_liters = remainder;
  dispensed_liters = 0;
  remaining_liters = remainder;
  status = AllocationStatus.pending;
}

unfoldable pub leftover_code : (now id allocation_id : ℕ) → Generated → ℕ → DispenseCode
leftover_code now id allocation_id g remainder = record {
  id = id;
  allocation_id = allocation_id;
  code_hash = g.code_hash;
  code_fp = g.code_fp;
  code_length = length g.code;
  authorized_liters = remainder;
  consumed_liters = 0;
  status = CodeStatus.active;
  max_attempts = code_max_attempts;
  attempt_count = 0;
  expires_at = some (code_expiry now);
  used_at = none;
}

-- The unique columns of `DispenseCode` and the primary keys, which a flush checks.
unfoldable pub violates_unique : Db → DispenseCode → Allocation → Bool
violates_unique db c a =
    any (λ d. d.id == c.id || text_eq d.code_fp c.code_fp || text_eq d.code_hash c.code_hash)
      db.codes
    || any (λ b. b.id == a.id) db.allocations

-- What is written for the new code: its rows, its plaintext, and its cache entry.
pub record Leftover : Type 0 where
  pub allocation : Allocation
  pub code : DispenseCode
  pub generated : Generated

abbrev pub outcome_of : ℕ → DispenseCode → Option Leftover → PartialOutcome
outcome_of actual c none = record {
  is_partial = false;
  original_code_id = c.id;
  dispensed_liters = actual;
  remaining_liters = 0;
  new_code = none;
  new_code_id = none;
  new_allocation_id = none;
}
outcome_of actual c (some l) = record {
  is_partial = true;
  original_code_id = c.id;
  dispensed_liters = actual;
  remaining_liters = l.allocation.remaining_liters;
  new_code = some l.generated.code;
  new_code_id = some l.code.id;
  new_allocation_id = some l.allocation.id;
}

abbrev pub new_codes : Option Leftover → List DispenseCode
new_codes none = []
new_codes (some l) = l.code ∷ []

abbrev pub new_allocations : Option Leftover → List Allocation
new_allocations none = []
new_allocations (some l) = l.allocation ∷ []

-- The tables after the commit.
unfoldable pub settled_db :
    ℕ → Db → CompleteRequest → DispenseCode → Allocation → Option Leftover → Db
settled_db now db req c a l =
    let actual = round3 req.actual_liters in
    record db {
      allocations =
          new_allocations l ++ update_allocation a.id (settled_allocation a actual) db.allocations;
      codes = new_codes l ++ update_code c.id (settled_code now c actual) db.codes;
      txns = new_txn db req c a ∷ db.txns;
      next_txn_id = db.next_txn_id + 1;
    }

abbrev pub final_status : Allocation → ℕ → ResponseStatus
final_status a actual =
    if is_over a actual
    then ResponseStatus.over_dispense
    else if leaves_partial a actual
    then ResponseStatus.is_partial
    else ResponseStatus.completed

unfoldable pub settled_response :
    Db → CompleteRequest → DispenseCode → Allocation → Option Leftover → CompleteResponse
settled_response db req c a l =
    let actual = round3 req.actual_liters in
    record {
      success = true;
      transaction_id = db.next_txn_id;
      status = final_status a actual;
      actual_liters = actual;
      requested_liters = round3 req.requested_liters;
      outcome = some (outcome_of actual c l);
    }

-- The schema's validation of a response: "REJECTED" is no member of the `Literal`.
abbrev pub respond : CompleteResponse → Result CompleteResponse
respond resp = elim resp.status [ ResponseStatus.rejected ↦ err validation | _ ↦ ok resp ]

-- Whether a write after the commit raised; without a leftover there is no third one.
abbrev pub has_raised : Writes → Option Leftover → Bool
has_raised all_done l = false
has_raised mark_raises l = true
has_raised delete_raises l = true
has_raised cache_raises none = false
has_raised cache_raises (some l) = true

-- `session.add(new_disp)` and its flush, which raises on a taken unique column.
unfoldable pub flushed :
    ℕ → SettleDraws → Db → Allocation → ℕ → Generated → Result (Option Leftover)
flushed now draws db alloc remainder g =
    let c = leftover_code now draws.code_id alloc.id g remainder in
    if violates_unique db c alloc
    then err integrity
    else ok (some (record { allocation = alloc; code = c; generated = g }))

module _ (crypto : Crypto) (r : Redis Key Value) where
  -- The rows for the leftover, when the dispense is partial.
  unfoldable pub make_leftover :
      ℕ → SettleDraws → Db → r.Store → Allocation → ℕ → Result (Option Leftover)
  make_leftover now draws db s a actual =
      let remainder = a.remaining_liters - actual in
      let alloc = leftover_allocation draws.allocation_id a remainder in
      let made =
        generate_unique_code crypto r s draws.code (some (hash_exists db)) (some (fp_exists db))
          none in
      if leaves_partial a actual then made >>= flushed now draws db alloc remainder else ok none

  -- The Redis writes after the commit.
  unfoldable pub cache_leftover : Allocation → Option Leftover → r.Store → r.Store
  cache_leftover a none s = s
  cache_leftover a (some l) s =
      r.set_ex (code_cache l.generated.code_fp)
        (cached (record {
          code_id = some l.code.id;
          allocation_id = l.allocation.id;
          employee_name = name_or_empty a.employee_name;
          remaining_liters = l.allocation.remaining_liters;
        }))
        300 s

  unfoldable pub after_commit : Writes → Text → Allocation → Option Leftover → r.Store → r.Store
  unfolding cache_leftover
  after_commit mark_raises fp a l s = s
  after_commit delete_raises fp a l s = r.sadd consumed_set fp s
  after_commit cache_raises fp a l s = r.delete (code_cache fp) (r.sadd consumed_set fp s)
  after_commit all_done fp a l s =
      cache_leftover a l (r.delete (code_cache fp) (r.sadd consumed_set fp s))

  unfoldable pub commit_settlement :
      Writes
      → ℕ
      → Text
      → CompleteRequest
      → DispenseCode
      → Allocation
      → Result (Option Leftover)
      → World r
      → Result CompleteResponse × World r
  commit_settlement writes now fp req c a (err e) w = (err e, w)
  commit_settlement writes now fp req c a (ok l) w = (
    if has_raised writes l then err redis_error else respond (settled_response w.db req c a l),
    record { db = settled_db now w.db req c a l; store = after_commit writes fp a l w.store },
  )

  unfoldable pub settle :
      ℕ
      → SettleDraws
      → Text
      → CompleteRequest
      → DispenseCode
      → Allocation
      → World r
      → Result CompleteResponse × World r
  unfolding make_leftover commit_settlement
  settle now draws fp req c a w =
      commit_settlement draws.writes now fp req c a
        (make_leftover now draws w.db w.store a (round3 req.actual_liters)) w

-- ===== src/Dispensing/Tests.antt =====
-- Runs of the dispensing engine on a small station, and the theorems at those inputs.
use fuel_monitoring.Prelude.{
  if◌then◌else◌, ℕ, ◌+◌, ◌*◌, ◌≡◌, refl, ◌≢◌, true, false, none, some, [], ◌∷◌, ◌++◌, map, Text,
  codes, text_eq, arith,
}
use fuel_monitoring.Redis.{rate_limit}
use fuel_monitoring.Redis.Memory.{Memory}
use fuel_monitoring.Security.{
  split, digits_from, generate_secure_code, code_fingerprint, hash_code, verify_code,
}
use fuel_monitoring.Dispensing.Keys.{consumed_set, lock, validate_rate, Key, key_eq, Value}
use fuel_monitoring.Dispensing.Bench.{crypto, hex, server, laws, empty}
use fuel_monitoring.Dispensing.Models.{
  Allocation, AllocationStatus, DispenseCode, CodeStatus, Db, CompleteRequest, CompleteResponse,
  ResponseStatus, Result, redis_error, DispenseTransaction, TxnStatus, ok, err, StationTotalizer,
  round3, fp_exists, hash_exists, codes_with_fp, allocations_with_id,
}
use fuel_monitoring.Dispensing.Generator.{
  Generated, generate_unique_code, generate_loop, candidate, collides, choose_length,
}
use fuel_monitoring.Dispensing.Rows.{total_dispensed, total_logged}
use fuel_monitoring.Dispensing.Soundness.{IsSound}
use fuel_monitoring.Dispensing.Soundness.Requests.{complete_dispense-IsSound}
use fuel_monitoring.Dispensing.Replay.{complete_dispense_once}
use fuel_monitoring.Dispensing.Outcomes.{
  complete_locked_whole, complete_dispense_unlocks, complete_locked_twice,
}
use fuel_monitoring.Dispensing.Leftover.{complete_locked_leftover, offered}
use fuel_monitoring.Dispensing.Admission.{IsAdmissible, Grounds, validate_code-Grounds}
use fuel_monitoring.Dispensing.Discrepancy.{audit_false_alarm}
use fuel_monitoring.Dispensing.Engine.Lookup.{World, lookup_code, verified_row}
use fuel_monitoring.Dispensing.Engine.Validation.{
  ValidateRequest, ValidateResponse, valid_from_cache, payload, validate_code, validate_cached,
  validate_row, admit, state_check,
}
use fuel_monitoring.Dispensing.Engine.Settlement.{
  SettleDraws, all_done, mark_raises, has_raised, settle, flushed, settled_response, new_txn,
  leftover_allocation, leftover_code, violates_unique,
}
use fuel_monitoring.Dispensing.Engine.Completion.{
  acquire_lock, complete_dispense, complete_with, complete_locked, complete_row, reject_complete,
}
use fuel_monitoring.Dispensing.Engine.Audit.{audit_totalizer, logged_liters}

abbrev quota : Allocation
quota = record {
  id = 1;
  employee_id = 4;
  employee_name = some (codes "Amal");
  upload_batch_id = 2;
  company_id = 3;
  invoice_number = none;
  allocated_liters = 50000;
  dispensed_liters = 0;
  remaining_liters = 50000;
  status = AllocationStatus.pending;
}

abbrev secret : Text
secret = codes "123456"

abbrev ticket : DispenseCode
ticket = record {
  id = 10;
  allocation_id = 1;
  code_hash = codes "5" ++ b'$' ∷ map (λ (x : ℕ). x * 2 + 1) (codes "5123456");
  code_fp = 7 ∷ secret;
  code_length = 6;
  authorized_liters = 50000;
  consumed_liters = 0;
  status = CodeStatus.active;
  max_attempts = 5;
  attempt_count = 0;
  expires_at = some 900;
  used_at = none;
}

abbrev station : World server
station = record {
  db = record {
    allocations = quota ∷ [];
    codes = ticket ∷ [];
    txns = [];
    totalizers = [];
    next_txn_id = 1;
  };
  store = empty;
}

abbrev draws : SettleDraws
draws = record {
  allocation_id = 2;
  code_id = 11;
  code = record { length_choice = 0; digit = λ i j. i + j; salt = λ i. 5 ∷ [] };
  writes = all_done;
}

-- 20.0004 litres of the 50 that are allowed.
abbrev part : CompleteRequest
part = record {
  code = secret;
  station_id = 8;
  dispenser_id = 9;
  requested_liters = 20000000;
  actual_liters = 20000400;
  secret_totalizer_before = 0;
  secret_totalizer_after = 2000;
}

abbrev whole : CompleteRequest
whole = record part { actual_liters = 49500000 }

abbrev quiet : ℕ → Memory Key Value → Memory Key Value
quiet i s = s

lookup_ticket : lookup_code crypto secret station.db ≡ ok (some (ticket, quota))
unfolding lookup_code verified_row verify_code code_fingerprint split text_eq
lookup_ticket = refl

abbrev answer_of : Result CompleteResponse → CompleteResponse
answer_of (ok x) = x
answer_of (err e) = reject_complete

abbrev generated : Generated
generated = record {
  code = codes "012345";
  code_fp = 7 ∷ codes "012345";
  code_hash = 5 ∷ b'$' ∷ map (λ (x : ℕ). x * 2 + 1) (5 ∷ codes "012345");
}

-- The first call succeeds, with 20 litres booked and a code for the other 30.
abbrev first : Result CompleteResponse × World server
first = complete_dispense crypto server quiet 100 draws part station

first_answer : first.0 ≡ ok (answer_of first.0)
unfolding complete_dispense complete_with acquire_lock complete_locked complete_row settle
    lookup_code verified_row verify_code code_fingerprint split text_eq key_eq flushed
    generate_unique_code generate_loop candidate collides choose_length generate_secure_code
    digits_from hash_code hash_exists fp_exists violates_unique settled_response round3
    leftover_allocation leftover_code
first_answer = refl

first_books : (answer_of first.0).actual_liters ≡ 20000
unfolding complete_dispense complete_with acquire_lock complete_locked complete_row settle
    lookup_code verified_row verify_code code_fingerprint split text_eq key_eq flushed
    generate_unique_code generate_loop candidate collides choose_length generate_secure_code
    digits_from hash_code hash_exists fp_exists violates_unique settled_response round3
    leftover_allocation leftover_code
first_books = refl

complete_dispense_once_example :
    let later = complete_dispense crypto server quiet 200 draws whole first.1 in
    (y : CompleteResponse) × (later.0 ≡ ok y)
    × (y.success ≡ true)
    × (y.transaction_id ≡ (answer_of first.0).transaction_id)
    × (y.actual_liters ≡ (answer_of first.0).actual_liters)
    × (later.1.db ≡ first.1.db)
complete_dispense_once_example =
    complete_dispense_once crypto server quiet quiet 100 200 draws draws part whole station
      (answer_of first.0) laws refl first_answer

station-IsSound : IsSound station.db
unfolding total_dispensed total_logged
station-IsSound = record {
  balanced = refl;
  quotas = (refl, tt);
  attempts = (omega arith, tt);
  unique = (tt, tt);
}

complete_dispense-IsSound_example : IsSound first.1.db
complete_dispense-IsSound_example =
    complete_dispense-IsSound crypto server 100 draws part quiet station station-IsSound

abbrev asked : ValidateRequest
asked = record { code = secret; station_id = 8 }

ticket-IsAdmissible : IsAdmissible 100 ticket quota
ticket-IsAdmissible = record {
  active = refl;
  attempts_left = omega arith;
  unexpired = λ t e. ground arith;
  unfulfilled = λ e. cc;
  not_void = λ e. cc;
}

abbrev accepted : ValidateResponse
accepted = valid_from_cache (payload ticket quota)

accepted_answer : (validate_code crypto server 100 100000 asked station).0 ≡ ok accepted
unfolding validate_code validate_cached validate_row admit state_check rate_limit lookup_code
    verified_row verify_code code_fingerprint split text_eq key_eq
accepted_answer = refl

validate_code-Grounds_example :
    (server.sismember consumed_set (code_fingerprint crypto secret) station.store ≡ false)
    × ((rate_limit server 100000 (validate_rate 8) 10 60 station.store).0.0 ≡ true)
    × Grounds crypto server 100 100000 asked accepted station
validate_code-Grounds_example =
    validate_code-Grounds crypto server 100 100000 asked station accepted accepted_answer refl

locked_answer :
    (complete_locked crypto server 100 draws part station).0
    ≡ ok (answer_of (complete_locked crypto server 100 draws part station).0)
unfolding complete_locked complete_row settle lookup_code verified_row verify_code code_fingerprint
    split text_eq key_eq flushed generate_unique_code generate_loop candidate collides choose_length
    generate_secure_code digits_from hash_code hash_exists fp_exists violates_unique
    settled_response round3 leftover_allocation leftover_code
locked_answer = refl

complete_locked_leftover_example :
    (code : Text) × (offered crypto server 100 draws
        (answer_of (complete_locked crypto server 100 draws part station).0)
      ≡ some code)
    × (d : DispenseCode) × (b : Allocation) × (lookup_code crypto code
          (complete_locked crypto server 100 draws part station).1.db
        ≡ ok (some (d, b)))
    × (d.status ≡ CodeStatus.active)
    × (d.attempt_count ≡ 0)
    × (round3 20000400 + d.authorized_liters ≡ 50000)
    × (b.remaining_liters ≡ d.authorized_liters)
    × (b.employee_id ≡ quota.employee_id)
    × (allocations_with_id b.id station.db ≡ [])
    × (b.id ≢ 1)
complete_locked_leftover_example =
    complete_locked_leftover crypto server 100 draws part station ticket quota
      (answer_of (complete_locked crypto server 100 draws part station).0) hex
      (λ i. (omega arith, tt)) refl lookup_ticket (unfold round3 in refl) locked_answer

complete_locked_whole_example :
    (x : CompleteResponse) × ((complete_locked crypto server 100 draws whole station).0
      ≡ (if has_raised draws.writes none then err redis_error else ok x))
    × (x.actual_liters ≡ round3 49500000)
    × (x.status ≢ ResponseStatus.is_partial)
    × (b : Allocation) × (allocations_with_id 1
          (complete_locked crypto server 100 draws whole station).1.db
        ≡ b ∷ [])
    × (b.dispensed_liters ≡ round3 49500000)
    × (b.remaining_liters ≡ 500)
    × (b.status ≡ AllocationStatus.fulfilled)
    × (d : DispenseCode) × (codes_with_fp
          (code_fingerprint crypto secret)
          (complete_locked crypto server 100 draws whole station).1.db
        ≡ d ∷ [])
    × (d.status ≡ CodeStatus.consumed)
    × (d.consumed_liters ≡ round3 49500000)
unfolding round3
complete_locked_whole_example =
    complete_locked_whole crypto server 100 draws whole station ticket quota refl lookup_ticket
      (unfold round3 in refl)

complete_dispense_unlocks_example :
    server.get (lock (code_fingerprint crypto secret)) first.1.store ≡ none
complete_dispense_unlocks_example =
    complete_dispense_unlocks crypto server quiet 100 draws part station laws
      (λ e. cc (first_answer, e))

-- Redis does not answer after the commit.
abbrev lost : SettleDraws
lost = record draws { writes = mark_raises }

complete_locked_twice_example :
    let (first, between) = complete_locked crypto server 100 lost whole station in
    let (second, after) = complete_locked crypto server 100 draws whole between in
    (first ≡ err redis_error)
    × (x : CompleteResponse) × (second ≡ ok x)
    × (t : DispenseTransaction) × (u : DispenseTransaction) × (between.db.txns
        ≡ t ∷ station.db.txns)
    × (after.db.txns ≡ u ∷ t ∷ station.db.txns)
    × (t.allocation_id ≡ 1)
    × (u.allocation_id ≡ 1)
    × (b : Allocation) × (allocations_with_id 1 after.db ≡ b ∷ [])
    × (b.dispensed_liters ≡ round3 49500000 + round3 49500000)
unfolding round3
complete_locked_twice_example =
    complete_locked_twice crypto server 100 lost whole draws station ticket quota refl lookup_ticket
      (unfold round3 in refl) refl refl

abbrev meter : StationTotalizer
meter = record { station_id = 8; dispenser_id = 9; totalizer_value = 700; cumulative_liters = 5000 }

abbrev sale : ℕ → DispenseTransaction
sale litres = record (new_txn station.db part ticket quota) {
  actual_liters = litres;
  status = TxnStatus.completed;
}

-- 5 litres before the last reading and 1 after it
abbrev metered : Db
metered = record station.db { totalizers = meter ∷ []; txns = sale 1000 ∷ sale 5000 ∷ [] }

audit_false_alarm_example : (audit_totalizer 8 9 800 metered).0 ≡ (false, some 5000)
unfolding logged_liters new_txn
audit_false_alarm_example =
    audit_false_alarm 8 9 800 metered meter refl (omega arith) refl (omega arith)

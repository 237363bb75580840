-- ===== src/Dispensing/Engine/Validation.antt =====
-- `validate_code`: may this code dispense at this station?
use fuel_monitoring.Prelude.{
  ℕ, ◌+◌, Bool, true, false, Option, none, some, [], Text, leb, ltb, if◌then◌else◌,
}
use fuel_monitoring.Redis.{Redis, rate_limit}
use fuel_monitoring.Security.{Crypto, code_fingerprint}
use fuel_monitoring.Dispensing.Keys.{
  Key, consumed_set, code_cache, validate_rate, Value, marker, cached, CachedCode,
}
use fuel_monitoring.Dispensing.Models.{
  Allocation, AllocationStatus, DispenseCode, CodeStatus, Result, ok, err, bad_cache, update_code,
}
use fuel_monitoring.Dispensing.Engine.Lookup.{World, lookup_code}

-- `CODE_RATE_LIMIT_PER_MIN`
abbrev pub code_rate_limit_per_min : ℕ
code_rate_limit_per_min = 10

pub record ValidateRequest : Type 0 where
  pub code : Text
  pub station_id : ℕ

pub data Reason : Type 0 where
  code_already_used rate_limited invalid_code code_not_active : Reason
  max_attempts_exceeded code_expired allocation_settled : Reason

pub record ValidateResponse : Type 0 where
  pub valid : Bool
  pub employee_name : Option Text
  pub remaining_liters : Option ℕ
  pub code_id : Option ℕ
  pub reason : Option Reason

-- `_reject`
abbrev pub reject : Reason → Result ValidateResponse
reject why = ok (record {
  valid = false;
  employee_name = none;
  remaining_liters = none;
  code_id = none;
  reason = some why;
})

-- `_valid_from_cache`
abbrev pub valid_from_cache : CachedCode → ValidateResponse
valid_from_cache c = record {
  valid = true;
  employee_name = some c.employee_name;
  remaining_liters = some c.remaining_liters;
  code_id = c.code_id;
  reason = none;
}

abbrev from_value : Value → Result ValidateResponse
from_value marker = err bad_cache
from_value (cached c) = ok (valid_from_cache c)

abbrev pub is_active : CodeStatus → Bool
is_active CodeStatus.active = true
is_active _ = false

abbrev pub is_settled : AllocationStatus → Bool
is_settled AllocationStatus.fulfilled = true
is_settled AllocationStatus.void = true
is_settled _ = false

abbrev pub is_past : ℕ → Option ℕ → Bool
is_past now none = false
is_past now (some t) = ltb t now

-- The state checks of step 5, in the order of the code; `none` is a pass.
unfoldable pub state_check : ℕ → DispenseCode → Allocation → Option Reason
state_check now c a =
    if is_active c.status
    then if leb c.max_attempts c.attempt_count
      then some max_attempts_exceeded
      else if is_past now c.expires_at
      then some code_expired
      else if is_settled a.status
      then some allocation_settled
      else none
    else some code_not_active

abbrev pub name_or_empty : Option Text → Text
name_or_empty none = []
name_or_empty (some name) = name

-- The payload that step 6 caches and that the response repeats.
abbrev pub payload : DispenseCode → Allocation → CachedCode
payload c a = record {
  code_id = some c.id;
  allocation_id = a.id;
  employee_name = name_or_empty a.employee_name;
  remaining_liters = a.remaining_liters;
}

abbrev pub count_attempt : DispenseCode → DispenseCode → DispenseCode
count_attempt c row = record row { attempt_count = c.attempt_count + 1 }

module _ (crypto : Crypto) (r : Redis Key Value) where
  -- Steps 5 and 6, on the row that was found.
  unfoldable pub admit :
      ℕ
      → Text
      → Option Reason
      → DispenseCode
      → Allocation
      → World r
      → Result ValidateResponse × World r
  admit now fp (some why) c a w = (reject why, w)
  admit now fp none c a w = (
    ok (valid_from_cache (payload c a)),
    record w {
      db = record w.db { codes = update_code c.id (count_attempt c) w.db.codes };
      store = r.set_ex (code_cache fp) (cached (payload c a)) 300 w.store;
    },
  )

  unfoldable pub validate_row :
      ℕ
      → Text
      → Result (Option (DispenseCode × Allocation))
      → World r
      → Result ValidateResponse × World r
  validate_row now fp (err e) w = (err e, w)
  validate_row now fp (ok none) w = (reject invalid_code, w)
  validate_row now fp (ok (some (c, a))) w = admit now fp (state_check now c a) c a w

  -- Steps 3 and 4: the cached answer, or the row.
  unfoldable pub validate_cached :
      ℕ → Text → Option Value → World r → Result ValidateResponse × World r
  validate_cached now code (some v) w = (from_value v, w)
  validate_cached now code none w =
      validate_row now (code_fingerprint crypto code) (lookup_code crypto code w.db) w

  unfoldable pub validate_code :
      (now now_ms : ℕ) → ValidateRequest → World r → Result ValidateResponse × World r
  validate_code now now_ms req w =
      let fp = code_fingerprint crypto req.code in
      let ((allowed, _), s) =
        rate_limit r now_ms (validate_rate req.station_id) code_rate_limit_per_min 60 w.store in
      if r.sismember consumed_set fp w.store
      then (reject code_already_used, w)
      else if allowed
      then validate_cached now req.code (r.get (code_cache fp) s) (record w { store = s })
      else (reject rate_limited, record w { store = s })
